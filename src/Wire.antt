-- ===== src/Wire.antt =====
-- client-web/src/ws.ts and client-web/src/store/crypto.slice.ts: the events of the socket, the worker
-- or direct connection behind it, the keys of the channels, in `Binary` the bytes as base64, and in
-- `Sending` the messages that the keys encrypt. Web Crypto, the text encoder, `btoa` and `atob` are a
-- parameter, and so are the payloads; a listener is a number.
pub mod Binary
pub mod Sending
pub mod Listeners
pub mod Sealed
pub mod Session
mod Tests
use Prim.Native.String
use Prim.Native.String.{[] as empty, ◌∷◌ as ◌∷ˢ◌}
use Prim.Native.Char.{code}
use nodetalk.Prelude.{
  ℕ, zero, suc, ◌≡◌, String, Bool, true, false, not, ◌&&◌, List, [], ◌∷◌, ◌++◌, map, Option, none,
  some, nat_beq, ◌==◌, if◌then◌else◌, or_default, any,
}
use nodetalk.Prelude.Dict
use nodetalk.Prelude.Dict.{Dict}
use nodetalk.Wire.Binary.{Browser, base64_to_bytes}

-- Those numbers of listeners that a `Set` holds, in the order they were added.
unfoldable pub add : ℕ → List ℕ → List ℕ
add fn [] = fn ∷ []
add fn (g ∷ fns) = if nat_beq g fn then g ∷ fns else g ∷ add fn fns

unfoldable pub remove : ℕ → List ℕ → List ℕ
remove fn [] = []
remove fn (g ∷ fns) = if nat_beq g fn then remove fn fns else g ∷ remove fn fns

pub record Body : Type 0 where
  pub channel_id : String
  pub ciphertext : String
  pub nonce : String

pub data Outgoing : Type 0 where
  read_receipt : String → Outgoing
  new_message : Body → String → String → Option String → Outgoing
  message_edit : String → Body → Outgoing
  message_delete : String → String → Outgoing

pub data Command : Type 0 where
  connect_cmd : String → Option String → Command
  disconnect_cmd : Command
  send_cmd : Outgoing → Command

pub data Connection : Type 0 where
  shared direct : Connection

-- What the browser is, and where the server is.
pub record Place : Type 0 where
  pub is_wails : Bool
  -- `SharedWorker` exists and can be made
  pub has_shared_worker : Bool
  pub is_https : Bool
  pub host : String
  pub stored_token : Option String

-- The worker's message to a tab. The payload of a key is read as a channel and its key.
pub record Inbound (J : Type 0) : Type 0 where
  pub kind : String
  pub payload : J
  pub key : String × String

pub data FromWorker (J : Type 0) : Type 0 where
  ws_open : FromWorker J
  ws_close : ℕ → FromWorker J
  ws_message : Inbound J → FromWorker J

-- What a listener is called with.
pub data Event (J : Type 0) : Type 0 where
  opened : Event J
  closed : ℕ → Event J
  key_of : String → Event J
  carries : J → Event J

pub record Client (Bytes J : Type 0) : Type 0 where
  pub listeners : Dict (List ℕ)
  pub worker : Option Connection
  -- the ports of shared workers that this page made: each of them delivers what the worker posts
  pub ports : ℕ
  pub unload_listener_registered : Bool
  pub channel_keys : Dict Bytes
  pub posted : List Command
  -- the calls of listeners, the newest last
  pub called : List (ℕ × Event J)

-- `token.replace(/=+$/, '')`
unfoldable pub strip_padding : String → String
strip_padding empty = empty
strip_padding (c ∷ˢ s) =
    let rest = strip_padding s in if nat_beq (code c) 61 && rest == "" then empty else c ∷ˢ rest

abbrev pub ws_url : Place → String
ws_url p = String.◌++◌ (if p.is_https then "wss://" else "ws://") (String.◌++◌ p.host "/ws")

abbrev or_token : Option String → Option String → String
or_token (some t) stored = if t == "" then or_default stored "" else t
or_token none stored = or_default stored ""

-- The address, and the subprotocol that carries the token.
unfoldable pub get_full_ws_url : Place → Option String → String × Option String
unfolding strip_padding
get_full_ws_url p explicit =
    let token = or_token explicit p.stored_token in
    if not p.is_wails
    then (ws_url p, none)
    else if token == ""
    then (ws_url p, none)
    else (ws_url p, some (String.◌++◌ "nodetalk-token." (strip_padding token)))

unfoldable pub listeners_of : String → Dict (List ℕ) → List ℕ
listeners_of event table = or_default (Dict.lookup event table) []

unfoldable pub on_ws : String → ℕ → Dict (List ℕ) → Dict (List ℕ)
unfolding add listeners_of
on_ws event fn table = Dict.insert event (add fn (listeners_of event table)) table

-- What `onWS` returns.
unfoldable pub off_ws : String → ℕ → Dict (List ℕ) → Dict (List ℕ)
unfolding remove
off_ws event fn table = elim (Dict.lookup event table) [
  | none ↦ table
  | some fns ↦ Dict.insert event (remove fn fns) table
]

abbrev known : List String
known =
    "message" ∷ "message_update" ∷ "message_delete" ∷ "presence" ∷ "channel_update"
    ∷ "channel_delete" ∷ "voice_update" ∷ "relationship_update" ∷ "video_ready" ∷ "whisper_init"
    ∷ "whisper_accept" ∷ "whisper_reject" ∷ "whisper_msg" ∷ "whisper_close" ∷ "whisper_error"
    ∷ "call_joined" ∷ "call_publish_answer" ∷ "call_subscribe_offer" ∷ "call_ice_candidate"
    ∷ "call_participant_joined" ∷ "call_participant_left" ∷ "call_track_state" ∷ "call_error" ∷ []

unfoldable pub is_known : String → Bool
is_known kind = any (λ k. k == kind) known

module _ {Bytes J : Type 0} where
  unfoldable pub emit : String → Event J → Client Bytes J → Client Bytes J
  unfolding listeners_of
  emit name event c = record c {
    called = c.called ++ map (λ fn. (fn, event)) (listeners_of name c.listeners);
  }

  unfoldable pub set_channel_key : String → Bytes → Client Bytes J → Client Bytes J
  set_channel_key channel_id key c = record c {
    channel_keys = Dict.insert channel_id key c.channel_keys;
  }

  -- A key that is not base64 throws before the store changes.
  unfoldable pub handle_inbound : Browser Bytes → Inbound J → Client Bytes J → Client Bytes J
  unfolding emit set_channel_key is_known base64_to_bytes
  handle_inbound b msg c =
      if msg.kind == "channel_key"
      then elim (base64_to_bytes b msg.key.1) [
        | none ↦ c
        | some key ↦ emit "channel_key" (key_of msg.key.0) (set_channel_key msg.key.0 key c)
      ]
      else if is_known msg.kind
      then emit msg.kind (carries msg.payload) c
      else c

  unfoldable pub handle_worker_message :
      Browser Bytes → FromWorker J → Client Bytes J → Client Bytes J
  unfolding emit handle_inbound
  handle_worker_message b ws_open c = emit "open" opened c
  handle_worker_message b (ws_close code) c = emit "close" (closed code) c
  handle_worker_message b (ws_message msg) c = handle_inbound b msg c

  unfoldable pub send_to_worker : Command → Client Bytes J → Client Bytes J
  send_to_worker cmd c = elim c.worker [
    | none ↦ c
    | some _ ↦ record c { posted = c.posted ++ cmd ∷ [] }
  ]

  unfoldable pub set_up_worker : Place → Client Bytes J → Client Bytes J
  set_up_worker p c =
      if p.has_shared_worker && not p.is_wails
      then record c { worker = some shared; ports = suc c.ports; unload_listener_registered = true }
      else record c { worker = some direct }

  unfoldable pub ws_connect : Place → Option String → Client Bytes J → Client Bytes J
  unfolding set_up_worker send_to_worker get_full_ws_url
  ws_connect p token c =
      let s = elim c.worker as (λ _. Client Bytes J) [ none ↦ set_up_worker p c | some _ ↦ c ] in
      let address = get_full_ws_url p token in send_to_worker (connect_cmd address.0 address.1) s

  unfoldable pub ws_disconnect : Client Bytes J → Client Bytes J
  unfolding send_to_worker
  ws_disconnect c = record (send_to_worker disconnect_cmd c) { worker = none; channel_keys = [] }

  -- What the shared worker posts comes in at every port of the page.
  unfoldable pub deliver : Browser Bytes → ℕ → FromWorker J → Client Bytes J → Client Bytes J
  unfolding handle_worker_message
  deliver b zero msg c = c
  deliver b (suc n) msg c = deliver b n msg (handle_worker_message b msg c)

  -- The client after it, and whether the message was handed over.
  unfoldable pub ws_send : Outgoing → Client Bytes J → Client Bytes J × Bool
  unfolding send_to_worker
  ws_send msg c = elim c.worker [
    | none ↦ (c, false)
    | some _ ↦ (send_to_worker (send_cmd msg) c, true)
  ]

  unfoldable pub ws_send_read_receipt : String → Client Bytes J → Client Bytes J
  unfolding ws_send
  ws_send_read_receipt channel_id c = (ws_send (read_receipt channel_id) c).0
