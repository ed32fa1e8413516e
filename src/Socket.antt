-- ===== src/Socket.antt =====
-- client-web/src/ws/socketManager.ts: the WebSocket's life cycle. `Manager` holds the closure's
-- variables, and beside them what the browser keeps: the ready state of each socket made so far, the
-- live timers, and the calls that went out, newest first. `Date.now()` is an argument. A delay
-- counts in 512ths of a millisecond, so that the factor 1.5 is exact up to the limit. The texts that
-- `JSON.stringify` makes are an argument of `send`; `new WebSocket` is given a well-formed address.
pub mod Step
pub mod Backoff
pub mod Single
pub mod Timers
pub mod Quiet
pub mod Recovery
pub mod Effects
mod Tests
use nodetalk.Prelude.{
  ℕ, suc, ◌+◌, ◌-◌, ◌*◌, ◌/◌, min, String, Bool, true, false, not, ◌&&◌, ◌||◌, List, [], ◌∷◌,
  Option, none, some, nat_beq, ltb, ◌==◌, if◌then◌else◌, filter,
}

abbrev pub initial_reconnect_delay : ℕ
initial_reconnect_delay = 512 * 1000

abbrev pub max_reconnect_delay : ℕ
max_reconnect_delay = 512 * 30_000

abbrev pub heartbeat_interval_ms : ℕ
heartbeat_interval_ms = 25_000

abbrev pub liveness_timeout_ms : ℕ
liveness_timeout_ms = heartbeat_interval_ms * 2

pub data ReadyState : Type 0 where
  connecting opened closing closed : ReadyState

pub data TimerKind : Type 0 where
  heartbeat liveness reconnect : TimerKind

pub record Timer : Type 0 where
  pub id : ℕ
  pub kind : TimerKind
  -- in 512ths of a millisecond
  pub delay : ℕ

pub data Frame : Type 0 where
  ping : Frame
  json : String → Frame

-- What the manager does to the outside. A `close_socket` without a code has none.
pub data Effect : Type 0 where
  new_socket : ℕ → String → List String → Effect
  send_frame : ℕ → Frame → Effect
  close_socket : ℕ → Option ℕ → Effect
  on_open : Effect
  on_message : String → Effect
  on_close : ℕ → Effect
  on_error : Effect

pub record Manager : Type 0 where
  pub socket : Option ℕ
  pub heartbeat_timer : Option ℕ
  pub liveness_timer : Option ℕ
  pub reconnect_timer : Option ℕ
  pub reconnect_delay : ℕ
  pub last_url : String
  pub last_protocols : Option (List String)
  pub disconnected : Bool
  pub last_inbound_at : ℕ
  -- the browser's side
  pub state_of : ℕ → ReadyState
  pub next_socket : ℕ
  pub live : List Timer
  pub next_timer : ℕ
  pub effects : List Effect

pub create_socket_manager : Manager
create_socket_manager = record {
  socket = none;
  heartbeat_timer = none;
  liveness_timer = none;
  reconnect_timer = none;
  reconnect_delay = initial_reconnect_delay;
  last_url = "";
  last_protocols = none;
  disconnected = false;
  last_inbound_at = 0;
  state_of = λ i. closed;
  next_socket = 0;
  live = [];
  next_timer = 1;
  effects = [];
}

-- ── What the browser does on a call ──

abbrev pub put_state : (ℕ → ReadyState) → ℕ → ReadyState → ℕ → ReadyState
put_state f i v j = if nat_beq i j then v else f j

abbrev pub is_opened : ReadyState → Bool
is_opened opened = true
is_opened _ = false

abbrev pub is_live : ReadyState → Bool
is_live connecting = true
is_live opened = true
is_live _ = false

-- `close` on a socket that is closing or closed does nothing.
abbrev pub after_close : ReadyState → ReadyState
after_close connecting = closing
after_close opened = closing
after_close closing = closing
after_close closed = closed

close_call : ℕ → Option ℕ → Manager → Manager
close_call i code s = record s {
  state_of = put_state s.state_of i (after_close (s.state_of i));
  effects = close_socket i code ∷ s.effects;
}

send_call : ℕ → Frame → Manager → Manager
send_call i f s = record s { effects = send_frame i f ∷ s.effects }

-- `if (t) clearInterval(t)`
abbrev pub clear : Option ℕ → List Timer → List Timer
clear none ts = ts
clear (some t) ts = filter (λ x. not (nat_beq x.id t)) ts

-- ── The manager ──

pub stop_heartbeat : Manager → Manager
stop_heartbeat s = record s {
  live = clear s.liveness_timer (clear s.heartbeat_timer s.live);
  heartbeat_timer = none;
  liveness_timer = none;
}

start_heartbeat : ℕ → Manager → Manager
unfolding stop_heartbeat
start_heartbeat now s =
    let t = stop_heartbeat s in
    record t {
      last_inbound_at = now;
      heartbeat_timer = some t.next_timer;
      liveness_timer = some (suc t.next_timer);
      live =
          record { id = suc t.next_timer; kind = liveness; delay = 512 * heartbeat_interval_ms }
          ∷ record { id = t.next_timer; kind = heartbeat; delay = 512 * heartbeat_interval_ms }
          ∷ t.live;
      next_timer = suc (suc t.next_timer);
    }

schedule_reconnect : Manager → Manager
schedule_reconnect s = record s {
  reconnect_timer = some s.next_timer;
  live =
      record { id = s.next_timer; kind = reconnect; delay = s.reconnect_delay }
      ∷ clear s.reconnect_timer s.live;
  next_timer = suc s.next_timer;
}

-- `url || lastUrl`
abbrev pick_url : Option String → String → String
pick_url none last = last
pick_url (some u) last = if u == "" then last else u

-- `protocols ?? lastProtocols`
abbrev pick_protocols : Option (List String) → Option (List String) → Option (List String)
pick_protocols none last = last
pick_protocols (some p) last = some p

-- `!url || url === lastUrl`
abbrev pub same_url : Option String → String → Bool
same_url none last = true
same_url (some u) last = u == "" || u == last

abbrev protocol_list : Option (List String) → List String
protocol_list none = []
protocol_list (some p) = p

open_socket : Option String → Option (List String) → Manager → Manager
open_socket url protocols s =
    let u = pick_url url s.last_url in
    let p = pick_protocols protocols s.last_protocols in
    record s {
      last_url = u;
      last_protocols = p;
      socket = some s.next_socket;
      state_of = put_state s.state_of s.next_socket connecting;
      next_socket = suc s.next_socket;
      effects = new_socket s.next_socket u (protocol_list p) ∷ s.effects;
    }

pub connect : Option String → Option (List String) → Manager → Manager
unfolding close_call open_socket
connect url protocols s =
    let s' = record s { disconnected = false } in
    elim s.socket [
      | none ↦ open_socket url protocols s'
      | some i ↦
          if is_live (s.state_of i)
          then (if same_url url s.last_url
              then s'
              else open_socket url protocols (close_call i (some 1000) s'))
          else open_socket url protocols s'
    ]

pub disconnect : Manager → Manager
unfolding stop_heartbeat close_call
disconnect s =
    let t =
      stop_heartbeat (record s { disconnected = true; live = clear s.reconnect_timer s.live }) in
    elim s.socket [
      | none ↦ record t { socket = none }
      | some i ↦ record (close_call i (some 1000) t) { socket = none }
    ]

pub is_open : Manager → Bool
is_open s = elim s.socket [ none ↦ false | some i ↦ is_opened (s.state_of i) ]

pub send : String → Manager → Manager
unfolding send_call
send text s = elim s.socket [
  | none ↦ s
  | some i ↦ if is_opened (s.state_of i) then send_call i (json text) s else s
]

-- ── The handlers of a socket, each after the browser has set the socket's state ──

pub handle_open : ℕ → ℕ → Manager → Manager
unfolding start_heartbeat
handle_open now i s = start_heartbeat now (record s {
  state_of = put_state s.state_of i opened;
  reconnect_delay = initial_reconnect_delay;
  effects = on_open ∷ s.effects;
})

pub handle_message : ℕ → String → Manager → Manager
handle_message now raw s = record s { last_inbound_at = now; effects = on_message raw ∷ s.effects }

pub handle_close : ℕ → ℕ → Manager → Manager
unfolding stop_heartbeat schedule_reconnect
handle_close i code s =
    let t = stop_heartbeat (record s { state_of = put_state s.state_of i closed }) in
    let t' = record t { effects = on_close code ∷ t.effects } in
    if s.disconnected || nat_beq code 1000 || nat_beq code 1001 then t' else schedule_reconnect t'

pub handle_error : Manager → Manager
handle_error s = record s { effects = on_error ∷ s.effects }

-- ── The timers ──

pub heartbeat_fires : Manager → Manager
unfolding send_call
heartbeat_fires s = elim s.socket [
  | none ↦ s
  | some i ↦ if is_opened (s.state_of i) then send_call i ping s else s
]

pub liveness_fires : ℕ → Manager → Manager
unfolding close_call
liveness_fires now s = elim s.socket [
  | none ↦ s
  | some i ↦
      if is_opened (s.state_of i) && ltb liveness_timeout_ms (now - s.last_inbound_at)
      then close_call i none s
      else s
]

pub next_delay : ℕ → ℕ
next_delay d = min (d * 3 / 2) max_reconnect_delay

pub reconnect_fires : ℕ → Manager → Manager
unfolding connect next_delay
reconnect_fires t s =
    connect (some s.last_url) s.last_protocols
      (record s { live = clear (some t) s.live; reconnect_delay = next_delay s.reconnect_delay })
