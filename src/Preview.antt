-- ===== src/Preview.antt =====
-- client-web/src/utils/messagePreview.ts: the line that the list of conversations shows of the last
-- message. A text is a list of UTF-16 units, as JavaScript counts and cuts it; the decrypted text of the
-- message is an argument.
pub mod OneLine
mod Tests
use Prim.Native.String
use Prim.Native.String.{[] as empty, ◌∷◌ as ◌∷ˢ◌}
use Prim.Native.Char.{code}
use mathlib.Core.List.{reverse}
use nodetalk.Prelude.{
  ℕ, zero, suc, ◌+◌, ◌-◌, ◌/◌, ◌%◌, String, Bool, true, false, ◌&&◌, ◌||◌, List, [], ◌∷◌, ◌++◌,
  Option, none, some, nat_beq, ltb, leb, ◌==◌, if◌then◌else◌, length, or_text?,
}
use nodetalk.Prelude.Dict
use nodetalk.Api.{Channel, MessageType, text, file, voice, video}
use nodetalk.Bridge.ChannelName.{is_direct_message, get_channel_display_name}

abbrev pub Units : Type 0
Units = List ℕ

-- A character beyond the basic plane takes two units.
unfoldable pub units : String → Units
units empty = []
units (c ∷ˢ s) =
    let n = code c in
    let rest = units s in
    if ltb n 65536
    then n ∷ rest
    else (55296 + (n - 65536) / 1024) ∷ (56320 + (n - 65536) % 1024) ∷ rest

-- What `\s` and `trim` take for white space.
unfoldable pub is_space : ℕ → Bool
is_space n =
    (leb 9 n && leb n 13)
    || nat_beq n 32
    || nat_beq n 160
    || nat_beq n 5760
    || (leb 8192 n && leb n 8202)
    || nat_beq n 8232
    || nat_beq n 8233
    || nat_beq n 8239
    || nat_beq n 8287
    || nat_beq n 12288
    || nat_beq n 65279

-- `text.replace(/\s+/g, ' ')`; `inside` tells whether the unit before was white space.
unfoldable pub squeeze : Bool → Units → Units
squeeze inside [] = []
squeeze inside (c ∷ s) =
    let rest = squeeze (is_space c) s in
    if is_space c then (if inside then rest else 32 ∷ rest) else c ∷ rest

unfoldable pub trim_start : Units → Units
trim_start [] = []
trim_start (c ∷ s) = let rest = trim_start s in if is_space c then rest else c ∷ s

unfoldable pub trim : Units → Units
trim s = reverse (trim_start (reverse (trim_start s)))

abbrev pub take : ℕ → Units → Units
take zero s = []
take (suc n) [] = []
take (suc n) (c ∷ s) = c ∷ take n s

abbrev pub max_preview_length : ℕ
max_preview_length = 60

unfoldable pub truncate : Units → Units
truncate s =
    let single_line = trim (squeeze false s) in
    if ltb max_preview_length (length single_line)
    then take max_preview_length single_line ++ 8230 ∷ []
    else single_line

abbrev pub type_name : MessageType → String
type_name text = "text"
type_name file = "file"
type_name voice = "voice"
type_name video = "video"

unfoldable pub body_for_type : MessageType → Units → Units
unfolding truncate units
body_for_type text s = truncate s
body_for_type kind s = units (String.◌++◌ "[" (String.◌++◌ (type_name kind) "]"))

unfoldable pub preview_prefix : (ℕ → String) → Channel → String → String → String
preview_prefix show_number channel sender_id current_user_id =
    if sender_id == current_user_id
    then "You"
    else or_text? (Dict.lookup sender_id channel.member_names) (
        if is_direct_message channel
        then get_channel_display_name show_number channel current_user_id
        else "Someone")

unfoldable pub build_message_preview :
    (ℕ → String) → Channel → String → MessageType → Units → String → Units
unfolding body_for_type units preview_prefix
build_message_preview show_number channel sender_id kind decrypted current_user_id =
    units (String.◌++◌ (preview_prefix show_number channel sender_id current_user_id) ": ")
    ++ body_for_type kind decrypted
