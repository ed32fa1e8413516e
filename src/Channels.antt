-- ===== src/Channels.antt =====
-- client-web/src/store/channels.slice.ts: the list of conversations. The store is a record, an action
-- a function on it; `refreshChannels` is cut at its `await`, so that responses can come in any order.
pub mod Refresh
pub mod Unread
pub mod Listed
pub mod Members
mod Tests
use nodetalk.Prelude.{
  ℕ, suc, ◌+◌, String, Bool, true, false, not, ◌&&◌, ◌||◌, List, [], ◌∷◌, map, Option, none, some,
  nat_beq, ltb, ◌==◌, if◌then◌else◌, filter, any, find, or_default, is_some, length,
}
use nodetalk.Prelude.IdSet.{has}
use nodetalk.Prelude.Dict
use nodetalk.Api.{Channel}

pub record Store : Type 0 where
  pub channels : List Channel
  pub active_channel : Option Channel
  pub is_channels_loading : Bool
  -- the module's `refreshSeq`
  pub refresh_seq : ℕ

unfoldable pub initial : Store
initial = record {
  channels = [];
  active_channel = none;
  is_channels_loading = false;
  refresh_seq = 0;
}

abbrev pub has_id : String → Channel → Bool
has_id id c = c.id == id

-- `a?.id === b?.id`
abbrev pub same_id : Option Channel → Option Channel → Bool
same_id none none = true
same_id none (some b) = false
same_id (some a) none = false
same_id (some a) (some b) = a.id == b.id

-- `c.unread_count || 0`
abbrev pub unread : Channel → ℕ
unread c = or_default c.unread_count 0

abbrev non_empty : Option String → Bool
non_empty none = false
non_empty (some s) = not (s == "")

-- The channels whose preview `hydrateLastMessagePreviews` starts to decrypt.
pub hydrate_last_message_previews : List Channel → List Channel
hydrate_last_message_previews = filter (λ ch.
    non_empty ch.last_message_ciphertext
    && is_some ch.last_message_type
    && non_empty ch.last_message_sender_id)

-- ── refreshChannels ──

-- Up to the request: the sequence number of this call is the new `refresh_seq`.
pub refresh_start : Store → Store
refresh_start s = record s {
  refresh_seq = suc s.refresh_seq;
  is_channels_loading = elim s.channels [ [] ↦ true | _ ↦ s.is_channels_loading ];
}

abbrev pub next_active : List Channel → Option Channel → Option Channel
next_active list none = none
next_active list (some active) = find (has_id active.id) list

refresh_finally : ℕ → Store → Store
refresh_finally seq s =
    if nat_beq seq s.refresh_seq || ltb 0 (length s.channels)
    then record s { is_channels_loading = false }
    else s

-- The response of the call with this number, and the previews that it starts.
pub refresh_response : ℕ → List Channel → Store → Store × List Channel
unfolding refresh_finally hydrate_last_message_previews
refresh_response seq list s =
    if nat_beq seq s.refresh_seq
    then (
      refresh_finally seq
          (record s { channels = list; active_channel = next_active list s.active_channel }),
      hydrate_last_message_previews list,
    )
    else (refresh_finally seq s, [])

pub refresh_error : ℕ → Store → Store
unfolding refresh_finally
refresh_error seq s = refresh_finally seq s

-- ── The other actions ──

read_one : Channel → Channel → Channel
read_one ch c = if c.id == ch.id && ltb 0 (unread c) then record c { unread_count = some 0 } else c

-- `none` for `state` as it is: the channel is active already and has nothing unread.
stays : Option Channel → Store → Bool
stays ch s = same_id s.active_channel ch && (elim ch [
  | none ↦ true
  | some c ↦ elim (find (has_id c.id) s.channels) [
    | none ↦ true
    | some target ↦ nat_beq (unread target) 0
  ]
])

-- The new store, and the channel that a read receipt is sent for.
pub set_active_channel : Option Channel → Store → Store × Option String
unfolding stays read_one
set_active_channel ch s = (
  if stays ch s then s else record s {
    active_channel = ch;
    channels = elim ch [ none ↦ s.channels | some c ↦ map (read_one c) s.channels ];
  },
  elim ch [ none ↦ none | some c ↦ some c.id ],
)

pub update_where : String → (Channel → Channel) → List Channel → List Channel
update_where id f = map (λ c. if c.id == id then f c else c)

pub increment_unread : String → Store → Store
unfolding update_where
increment_unread id s = record s {
  channels = update_where id (λ c. record c { unread_count = some (unread c + 1) }) s.channels;
}

-- `...(x !== undefined ? { field: x } : {})`
abbrev pub given_or : Option String → Option String → Option String
given_or none old = old
given_or (some x) old = some x

pub bump_last_message : String → String → Option String → Option String → Store → Store
unfolding update_where
bump_last_message id timestamp preview message_id s = record s {
  channels =
      update_where id
        (λ c. record c {
          last_message_at = some timestamp;
          last_message_preview = given_or preview c.last_message_preview;
          last_message_id = given_or message_id c.last_message_id;
        })
        s.channels;
}

pub set_last_message_preview : String → Option String → Store → Store
unfolding update_where
set_last_message_preview id preview s = record s {
  channels = update_where id (λ c. record c { last_message_preview = preview }) s.channels;
}

abbrev pub is_message : Option String → String → Bool
is_message none id = false
is_message (some m) id = m == id

pub clear_last_message_if_current : String → String → Store → Store
unfolding update_where
clear_last_message_if_current id message_id s = record s {
  channels =
      update_where id
        (λ c.
          if is_message c.last_message_id message_id
          then record c { last_message_preview = none }
          else c)
        s.channels;
}

-- After the server has made the channel.
pub create_channel : Channel → Store → Store
create_channel ch s =
    if any (has_id ch.id) s.channels then s else record s { channels = ch ∷ s.channels }

status_of : String → String → Channel → Channel
status_of user_id status c =
    if has user_id c.members
    then record c { member_statuses = Dict.insert user_id status c.member_statuses }
    else c

avatar_of : String → String → Channel → Channel
avatar_of user_id avatar_id c =
    if has user_id c.members
    then record c { member_avatars = Dict.insert user_id avatar_id c.member_avatars }
    else c

abbrev pub on_active : (Channel → Channel) → Option Channel → Option Channel
on_active f none = none
on_active f (some c) = some (f c)

pub update_member_status : String → String → Store → Store
unfolding status_of
update_member_status user_id status s = record s {
  channels = map (status_of user_id status) s.channels;
  active_channel = on_active (status_of user_id status) s.active_channel;
}

pub update_member_avatar : String → String → Store → Store
unfolding avatar_of
update_member_avatar user_id avatar_id s = record s {
  channels = map (avatar_of user_id avatar_id) s.channels;
  active_channel = on_active (avatar_of user_id avatar_id) s.active_channel;
}

-- The settings that the handler passes on: every key is present, and those that the frame leaves out are
-- undefined. The server always sends a name and whether the channel is private.
pub record Settings : Type 0 where
  pub name : String
  pub is_private : Bool
  pub description : Option String
  pub avatar_id : Option String

settings_of : String → Settings → Channel → Channel
settings_of id settings c =
    if c.id == id
    then record c {
      name = settings.name;
      is_private = settings.is_private;
      description = settings.description;
      avatar_id = settings.avatar_id;
    }
    else c

pub update_channel_settings : String → Settings → Store → Store
unfolding settings_of
update_channel_settings id settings s = record s {
  channels = map (settings_of id settings) s.channels;
  active_channel = on_active (settings_of id settings) s.active_channel;
}

unfoldable pub remove_channel : String → Store → Store
remove_channel channel_id s = record s {
  channels = filter (λ c. not (c.id == channel_id)) s.channels;
  active_channel = elim s.active_channel [
    | none ↦ none
    | some c ↦ if c.id == channel_id then none else some c
  ];
}

unfoldable pub reset_channels : Store → Store
reset_channels s = record s { channels = []; active_channel = none }
