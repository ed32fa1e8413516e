-- ===== src/Bridge.antt =====
-- client-web/src/store/ws.manager.ts: what an event of the socket does to the stores. The stores that
-- the handlers share are one record; the calls that leave it are a list, the newest last. A handler
-- that awaits is cut there, so that anything can happen in between.
pub mod ChannelName
pub mod Messages
pub mod Calls
pub mod Deleted
mod Tests
use nodetalk.Prelude.{
  ℕ, ◌-◌, String, Bool, true, false, not, ◌&&◌, List, [], ◌∷◌, ◌++◌, map, Option, none, some, ltb,
  ◌==◌, if◌then◌else◌, filter, any, is_text,
}
use nodetalk.Channels.{
  Store, Settings, has_id, update_member_status, update_channel_settings, remove_channel,
  clear_last_message_if_current,
}
use nodetalk.Pending.{Cached, Placeholder}
use nodetalk.Api.{failed}
use nodetalk.Voice.{Voice, leave_voice}

pub data WsState : Type 0 where
  connecting connected disconnected : WsState

pub record Me : Type 0 where
  pub id : String
  pub status : String

pub data Sound : Type 0 where
  new_group message : Sound

pub data Effect : Type 0 where
  read_receipt : String → Effect
  plays : Sound → Effect
  notifies : String → Effect
  retries : String → Effect
  fetches_relationships fetches_incoming_requests : Effect
  invalidates removes_queries : List String → Effect
  ws_connects : Option String → Effect
  ws_disconnects : Effect

pub record World (Stream : Type 0) : Type 0 where
  pub channels : Store
  pub voice : Voice Stream
  pub user : Option Me
  pub ws_state : WsState
  -- the 100 ms timer of `debouncedRefresh` runs
  pub refresh_timeout : Bool
  pub connect_time : ℕ
  pub initialized : Bool
  -- the pages of each channel in the query cache, where there is one
  pub query_client : Option (List Cached)
  pub effects : List Effect

abbrev is_failed : Placeholder → Bool
is_failed m = elim m.pending [ some failed ↦ m.has_retry | _ ↦ false ]

retry_page : List Placeholder → List Effect
retry_page page = map (λ m. retries m.id) (filter is_failed page)

retry_pages : List (List Placeholder) → List Effect
unfolding retry_page
retry_pages [] = []
retry_pages (page ∷ pages) = retry_page page ++ retry_pages pages

retry_all : List Cached → List Effect
unfolding retry_pages
retry_all [] = []
retry_all (query ∷ queries) = retry_pages query.pages ++ retry_all queries

is_me : String → Option Me → Bool
is_me user_id none = false
is_me user_id (some me) = user_id == me.id

with_status : String → String → Option Me → Option Me
unfolding is_me
with_status user_id status none = none
with_status user_id status (some me) =
    if is_me user_id (some me) then some (record me { status = status }) else some me

module _ {Stream : Type 0} where
  unfoldable pub emit : List Effect → World Stream → World Stream
  emit es w = record w { effects = w.effects ++ es }

  unfoldable pub debounced_refresh : World Stream → World Stream
  debounced_refresh w = record w { refresh_timeout = true }

  -- `some` of the effects, where there is a query client
  abbrev with_queries : List Effect → World Stream → List Effect
  with_queries es w = elim w.query_client [ none ↦ [] | some _ ↦ es ]

  -- Every failed message of every loaded channel is sent again.
  pub retry_failed_messages : World Stream → World Stream
  unfolding emit retry_all
  retry_failed_messages w = elim w.query_client [
    | none ↦ w
    | some queries ↦ emit (retry_all queries) w
  ]

  pub on_open : World Stream → World Stream
  unfolding retry_failed_messages
  on_open w = retry_failed_messages (record w { ws_state = connected })

  pub on_close : World Stream → World Stream
  on_close w = record w { ws_state = disconnected }

  -- At this time, with this token.
  pub connect_ws : ℕ → Option String → World Stream → World Stream
  unfolding emit
  connect_ws now token w =
      emit (ws_connects token ∷ [])
        (record w { connect_time = now; ws_state = connecting; initialized = true })

  pub disconnect_ws : World Stream → World Stream
  unfolding emit
  disconnect_ws w = record (emit (ws_disconnects ∷ []) w) { ws_state = disconnected }

  pub reconnect_if_needed : ℕ → World Stream → World Stream
  unfolding connect_ws
  reconnect_if_needed now w = elim w.ws_state [ connected ↦ w | _ ↦ connect_ws now none w ]

  pub on_channel_key : ℕ → String → World Stream → World Stream
  unfolding emit debounced_refresh
  on_channel_key now channel_id w =
      let known = any (has_id channel_id) w.channels.channels in
      debounced_refresh (
        if not known && not (ltb (now - w.connect_time) 2000)
        then emit (plays new_group ∷ []) w
        else w)

  -- A payload without user or status only refreshes the queries: `none`.
  pub on_presence : Option (String × String) → World Stream → World Stream
  unfolding emit with_status
  on_presence payload w =
      let v = elim payload as (λ _. World Stream) [
        | none ↦ w
        | some (user_id, status) ↦
            if not (user_id == "") && not (status == "")
            then record w {
              user = with_status user_id status w.user;
              channels = update_member_status user_id status w.channels;
            }
            else w
      ] in
      emit
        (with_queries
          (invalidates ("channels" ∷ []) ∷ elim v.channels.active_channel [
            | none ↦ []
            | some c ↦
                if c.id == "" then [] else invalidates ("channels" ∷ c.id ∷ "members" ∷ []) ∷ []
          ])
          v)
        v

  pub on_channel_update : String → String → Settings → World Stream → World Stream
  unfolding debounced_refresh
  on_channel_update kind channel_id settings w = debounced_refresh (
      if kind == "settings_updated" && not (channel_id == "")
      then record w { channels = update_channel_settings channel_id settings w.channels }
      else w)

  pub on_channel_delete : String → World Stream → World Stream
  unfolding emit
  on_channel_delete channel_id w =
      if channel_id == ""
      then w
      else let v =
          emit
            (with_queries
              (removes_queries ("messages" ∷ channel_id ∷ []) ∷ invalidates ("channels" ∷ []) ∷ [])
              w)
            (record w { channels = remove_channel channel_id w.channels }) in
        if is_text v.voice.active_channel_id channel_id && v.voice.is_active
        then record v { voice = leave_voice v.voice }
        else v

  pub on_message_delete : String → String → World Stream → World Stream
  on_message_delete channel_id message_id w =
      if not (channel_id == "") && not (message_id == "")
      then record w { channels = clear_last_message_if_current channel_id message_id w.channels }
      else w

  pub on_relationship_update : World Stream → World Stream
  unfolding emit
  on_relationship_update w = emit (fetches_relationships ∷ fetches_incoming_requests ∷ []) w

  pub on_video_ready : String → World Stream → World Stream
  unfolding emit
  on_video_ready channel_id w =
      if channel_id == ""
      then w
      else emit (with_queries (invalidates ("messages" ∷ channel_id ∷ []) ∷ []) w) w
