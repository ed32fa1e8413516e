-- ===== src/Channels/Tests.antt =====
-- The theorems on the list of conversations at concrete inputs.
use nodetalk.Prelude.{ℕ, ◌≡◌, refl, true, false, List, [], ◌∷◌, none, some, arith, String, find}
use nodetalk.Api.{Channel}
use nodetalk.Channels.{Store, initial, next_active, refresh_start}
use nodetalk.Channels.Refresh.{response, error, receive, receive_all, latest_refresh_wins}
use nodetalk.Channels.Listed.{IsSynced}
use nodetalk.Channels.Members.{
  Action, act, refresh_starts, refresh_responds, sets_active, increments_unread, act_all,
  active_channel_listed,
}

abbrev channel : String → ℕ → Channel
channel id n = record {
  id = id;
  name = id;
  description = none;
  avatar_id = none;
  is_private = true;
  invite_link = none;
  creator_id = "u";
  user_role = 1;
  members = "u" ∷ "v" ∷ [];
  member_names = [];
  member_avatars = [];
  member_domains = [];
  member_statuses = [];
  member_roles = [];
  created_at = "2024-01-01";
  unread_count = some n;
  last_message_at = none;
  last_message_ciphertext = none;
  last_message_nonce = none;
  last_message_type = none;
  last_message_sender_id = none;
  last_message_id = none;
  last_message_preview = none;
}

abbrev two : List Channel
two = channel "a" 2 ∷ channel "b" 0 ∷ []

abbrev store : Store
store = record {
  channels = two;
  active_channel = some (channel "b" 0);
  is_channels_loading = false;
  refresh_seq = 3;
}

-- An older response comes in after the latest one.
latest_refresh_wins_example :
    let t = receive_all (refresh_start store) (error 2 ∷ []) in
    let u = receive_all (receive t (response 4 two)) (response 3 [] ∷ []) in
    (u.channels ≡ two) × (u.active_channel ≡ next_active two (some (channel "b" 0)))
latest_refresh_wins_example =
    latest_refresh_wins store (error 2 ∷ []) (response 3 [] ∷ []) two ((λ e. omega arith), tt)
      ((λ e. omega arith), tt)

abbrev actions : List Action
actions =
    refresh_starts
    ∷ refresh_responds 1 two
    ∷ sets_active (some (channel "a" 2))
    ∷ increments_unread "a"
    ∷ []

active_channel_listed_example : IsSynced (act_all actions initial)
unfolding initial find act
active_channel_listed_example = active_channel_listed actions (tt, (tt, (refl, (tt, tt))))
