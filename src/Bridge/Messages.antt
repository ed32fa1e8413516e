-- ===== src/Bridge/Messages.antt =====
-- client-web/src/store/ws.manager.ts: the handlers of `message` and `message_update`, cut at the
-- preview that they await, and how they change the unread counts.
use Prim.Native.String
use nodetalk.Prelude.{
  ℕ, ◌+◌, ◌≡◌, String, Bool, false, not, ◌&&◌, ◌||◌, List, [], ◌∷◌, ◌++◌, Option, none, some, arith,
  ◌==◌, if◌then◌else◌, find, any, is_some, or_text?,
}
use nodetalk.Prelude.Dict
use nodetalk.Api.{Channel, Message, MessageType, text, file, voice, video}
use nodetalk.Channels.{has_id, is_message, increment_unread, bump_last_message}
use nodetalk.Channels.Unread.{unread_at, on_count, increment_unread_at, bump_unread_at}
use nodetalk.Bridge.{
  World, Me, Effect, message, emit, debounced_refresh, read_receipt, plays, notifies,
}
use nodetalk.Bridge.ChannelName.{get_channel_display_name}

abbrev type_name : MessageType → String
type_name text = "text"
type_name file = "file"
type_name voice = "voice"
type_name video = "video"

-- What the handler read before its `await`.
pub record Handling : Type 0 where
  pub msg : Message
  pub active_channel : Option Channel
  pub channels : List Channel
  pub current_user_id : Option String

abbrev id_of : Option Me → Option String
id_of none = none
id_of (some me) = some me.id

-- `currentUserId && msg.sender_id === currentUserId`
unfoldable pub is_own : Handling → Bool
is_own h = elim h.current_user_id [
  | none ↦ false
  | some me ↦ not (me == "") && (h.msg.sender_id == me)
]

unfoldable pub is_viewed : Handling → Bool
is_viewed h = elim h.active_channel [ none ↦ false | some c ↦ c.id == h.msg.channel_id ]

-- What the page shows while the message comes in: whether it is visible and has the focus, the
-- decrypted text, and how a number is written.
pub record Page : Type 0 where
  pub in_view : Bool
  pub decrypted : String
  pub show_number : ℕ → String

body_of : Page → MessageType → String
body_of page text = page.decrypted
body_of page kind = String.◌++◌ "Sent a " (type_name kind)

pub notification : Page → Handling → List Effect
unfolding body_of
notification page h =
    if page.in_view then [] else elim (find (has_id h.msg.channel_id) h.channels) [
      | none ↦ []
      | some ch ↦ elim h.current_user_id [
        | none ↦ []
        | some me ↦
            if me == ""
            then []
            else let sender = or_text? (Dict.lookup h.msg.sender_id ch.member_names) "Someone" in
              let name = get_channel_display_name page.show_number ch me in
              let body = body_of page h.msg.kind in
              notifies
                (String.◌++◌ sender (String.◌++◌ " (#" (String.◌++◌ name (String.◌++◌ "): " body))))
              ∷ []
      ]
    ]

module _ {Stream : Type 0} where
  -- After the preview; `none` when there is none or it failed.
  unfoldable pub on_message_finish : Page → Handling → Option String → World Stream → World Stream
  unfolding emit debounced_refresh is_own is_viewed
  on_message_finish page h preview w =
      let m = h.msg in
      let bumped = record w {
        channels = bump_last_message m.channel_id m.sent_at preview (some m.id) w.channels;
      } in
      let listed =
        if any (has_id m.channel_id) h.channels then bumped else debounced_refresh bumped in
      if is_own h
      then listed
      else if is_viewed h
      then emit (read_receipt m.channel_id ∷ []) listed
      else emit (plays message ∷ notification page h)
          (record listed { channels = increment_unread m.channel_id listed.channels })

  abbrev pub handling : Message → World Stream → Handling
  handling msg w = record {
    msg = msg;
    active_channel = w.channels.active_channel;
    channels = w.channels.channels;
    current_user_id = id_of w.user;
  }

  -- A message of a listed channel waits for its preview; another one is done at once.
  unfoldable pub on_message_start : Page → Message → World Stream → World Stream × Option Handling
  unfolding on_message_finish
  on_message_start page msg w =
      let h = handling msg w in
      if is_some (find (has_id msg.channel_id) h.channels)
      then (w, some h)
      else (on_message_finish page h none w, none)

  -- The edited last message of a channel, up to its preview.
  pub on_message_update_start : Message → World Stream → Option Message
  on_message_update_start msg w = elim (find (has_id msg.channel_id) w.channels.channels) [
    | none ↦ none
    | some ch ↦ if is_message ch.last_message_id msg.id then some msg else none
  ]

  pub on_message_update_finish : Message → String → World Stream → World Stream
  on_message_update_finish msg preview w = record w {
    channels = bump_last_message msg.channel_id msg.sent_at (some preview) (some msg.id) w.channels;
  }

  -- However the stores changed while the preview was awaited: a message of the user's own counts
  -- nowhere; a message of the channel that was open when it came in counts nowhere and a read receipt
  -- is the one effect; any other message counts one up in its channel and in no other.
  pub message_counts :
      (page : Page) (h : Handling) (preview : Option String) (w : World Stream) (j : String)
      → let v = on_message_finish page h preview w in
        (unread_at j v.channels ≡ (
          if is_own h || is_viewed h
          then unread_at j w.channels
          else on_count (λ n. if h.msg.channel_id == j then n + 1 else n) (unread_at j w.channels)))
        × (v.effects ≡ (
            if is_own h
            then w.effects
            else w.effects
              ++ (if is_viewed h
                  then read_receipt h.msg.channel_id ∷ []
                  else plays message ∷ notification page h)))
  unfolding on_message_finish emit debounced_refresh
  message_counts page h preview w j =
      let m = h.msg in
      let s = bump_last_message m.channel_id m.sent_at preview (some m.id) w.channels in
      (
        ground (
          arith,
          increment_unread_at m.channel_id j s,
          bump_unread_at m.channel_id j m.sent_at preview (some m.id) w.channels,
        ),
        ground arith,
      )
