-- ===== src/Preview/Tests.antt =====
-- The theorem on previews at a text with line breaks.
use nodetalk.Prelude.{◌≡◌, refl, false, [], ◌∷◌, none}
use nodetalk.Api.{Channel, text, voice}
use nodetalk.Prelude.Dict
use nodetalk.Bridge.ChannelName.{is_direct_message}
use nodetalk.Preview.{units, truncate, squeeze, trim, trim_start, is_space, build_message_preview}

abbrev group : Channel
group = record {
  id = "grp-1";
  name = "General";
  description = none;
  avatar_id = none;
  is_private = false;
  invite_link = none;
  creator_id = "user-other";
  user_role = 0;
  members = "user-me" ∷ "user-other" ∷ "user-3" ∷ [];
  member_names = ("user-other", "Alice") ∷ [];
  member_avatars = [];
  member_domains = [];
  member_statuses = [];
  member_roles = [];
  created_at = "";
  unread_count = none;
  last_message_at = none;
  last_message_ciphertext = none;
  last_message_nonce = none;
  last_message_type = none;
  last_message_sender_id = none;
  last_message_id = none;
  last_message_preview = none;
}

two_lines :
    build_message_preview (λ n. "") group "user-other" text (units " a  b ") "user-me"
    ≡ units "Alice: a b"
unfolding build_message_preview squeeze trim trim_start is_space truncate units Dict.lookup
two_lines = refl

voice_shown :
    build_message_preview (λ n. "") group "user-3" voice (units "x") "user-me"
    ≡ units "Someone: [voice]"
unfolding build_message_preview units Dict.lookup is_direct_message
voice_shown = refl
