-- ===== src/Bridge/ChannelName.antt =====
-- client-web/src/utils/channel.ts: which channels are direct messages, and the name that is shown.
use Prim.Native.String
use Prim.Native.String.{[] as empty, ◌∷◌ as ◌∷ˢ◌}
use Prim.Native.Char.{Char, code}
use nodetalk.Prelude.{
  ℕ, String, Bool, true, not, ◌&&◌, ◌||◌, Option, none, some, nat_beq, leb, ◌==◌, if◌then◌else◌,
  find, length,
}
use nodetalk.Prelude.Dict
use nodetalk.Api.{Channel}

-- The white space that `trim` removes.
abbrev is_space : Char → Bool
is_space c =
    let n = code c in
    (leb 9 n && leb n 13)
    || nat_beq n 32
    || nat_beq n 160
    || nat_beq n 5760
    || (leb 8192 n && leb n 8202)
    || nat_beq n 8232
    || nat_beq n 8233
    || nat_beq n 8239
    || nat_beq n 8287
    || nat_beq n 12288
    || nat_beq n 65279

-- `name.trim() === ''`
unfoldable pub is_blank : String → Bool
is_blank empty = true
is_blank (c ∷ˢ s) = is_space c && is_blank s

-- `!channel.name` is part of it: an empty name is blank.
unfoldable pub is_direct_message : Channel → Bool
is_direct_message ch = nat_beq (length ch.members) 2 && is_blank ch.name

abbrev pub other_member : Channel → String → Option String
other_member ch user_id = find (λ m. not (m == user_id)) ch.members

-- The decimal text of a number is an argument.
pub get_channel_display_name : (ℕ → String) → Channel → String → String
unfolding is_direct_message
get_channel_display_name show_number ch user_id =
    if is_direct_message ch
    then elim (other_member ch user_id) [
      | none ↦ "Unknown"
      | some other ↦ if other == "" then "Unknown" else elim (Dict.lookup other ch.member_names) [
        | none ↦ other
        | some name ↦ if name == "" then other else name
      ]
    ]
    else if ch.name == ""
    then String.◌++◌ "Group (" (String.◌++◌ (show_number (length ch.members)) ")")
    else ch.name
