-- ===== src/Bridge/Tests.antt =====
-- The theorems on the handlers of socket events at concrete inputs.
use nodetalk.Prelude.{
  ◌+◌, ◌≡◌, refl, true, false, ◌||◌, [], ◌∷◌, ◌++◌, none, some, String, if◌then◌else◌, ◌==◌,
}
use nodetalk.Prelude.IdSet
use nodetalk.Api.{Channel, Message, text}
use nodetalk.Channels.Unread.{unread_at, on_count}
use nodetalk.Voice.{Voice, IncomingCall, load_page, load_handled_calls, rings_in}
use nodetalk.Voice.Actions.{dismisses}
use nodetalk.Bridge.{World, connected, message, read_receipt, plays}
use nodetalk.Bridge.Messages.{
  Handling, Page, handling, is_own, is_viewed, notification, on_message_finish, message_counts,
}
use nodetalk.Bridge.Calls.{call_from}
use nodetalk.Bridge.Calls.Ringing.{
  happen_all, voice_updates, channels_change, acts, handled_call-IsSilent,
}

abbrev direct : Channel
direct = record {
  id = "c";
  name = " ";
  description = none;
  avatar_id = none;
  is_private = true;
  invite_link = none;
  creator_id = "u";
  user_role = 1;
  members = "me" ∷ "u" ∷ [];
  member_names = ("u", "Ursula") ∷ [];
  member_avatars = [];
  member_domains = [];
  member_statuses = [];
  member_roles = [];
  created_at = "2024-01-01";
  unread_count = some 2;
  last_message_at = none;
  last_message_ciphertext = none;
  last_message_nonce = none;
  last_message_type = none;
  last_message_sender_id = none;
  last_message_id = none;
  last_message_preview = none;
}

abbrev voice : Voice String
unfolding load_page load_handled_calls
voice = load_page true none none

abbrev world : World String
world = record {
  channels = record {
    channels = direct ∷ [];
    active_channel = some direct;
    is_channels_loading = false;
    refresh_seq = 0;
  };
  voice = voice;
  user = some (record { id = "me"; status = "online" });
  ws_state = connected;
  refresh_timeout = false;
  connect_time = 0;
  initialized = true;
  query_client = none;
  effects = [];
}

abbrev call : IncomingCall
unfolding call_from
call = call_from 5 direct "u"

abbrev answered : World String
answered = record world { voice = record voice { handled_call_channels = "c" ∷ [] } }

abbrev msg : Message
msg = record {
  id = "m";
  channel_id = "c";
  sender_id = "u";
  kind = text;
  ciphertext = "x";
  nonce = "n";
  compression = "";
  sent_at = "2024-01-02";
  edited_at = none;
  reply_to_id = none;
  pending = none;
}

-- The channel was not open when the message came in.
abbrev away : Handling
away = record (handling msg world) { active_channel = none }

abbrev page : Page
page = record { in_view = false; decrypted = "hello"; show_number = λ n. "2" }

message_counts_example :
    let v = on_message_finish page away none world in
    (unread_at "c" v.channels ≡ (
      if is_own away || is_viewed away
      then unread_at "c" world.channels
      else on_count (λ n. if "c" == "c" then n + 1 else n) (unread_at "c" world.channels)))
    × (v.effects ≡ (
        if is_own away
        then []
        else []
          ++ (if is_viewed away
              then read_receipt "c" ∷ []
              else plays message ∷ notification page away)))
message_counts_example = message_counts page away none world "c"

handled_call-IsSilent_example :
    let v =
      happen_all
        (voice_updates 6 "c" ("u" ∷ []) ∷ channels_change 7 world.channels ∷ acts dismisses ∷ [])
        answered in
    (IdSet.has "c" v.voice.handled_call_channels ≡ true)
    × (rings_in "c" v.voice.incoming_call ≡ false)
unfolding IdSet.has voice
handled_call-IsSilent_example =
    handled_call-IsSilent "c"
      (voice_updates 6 "c" ("u" ∷ []) ∷ channels_change 7 world.channels ∷ acts dismisses ∷ [])
      answered (tt, (tt, (tt, tt))) (refl, refl)
