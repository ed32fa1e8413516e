-- ===== src/Socket/Step.antt =====
-- What can happen to the manager: a call of its client, an event of a socket, or a timer. An event is
-- possible only where the browser can deliver it.
use nodetalk.Prelude.{ℕ, ◌≡◌, ◌≢◌, String, ◌⊎◌, List, [], ◌∷◌, Option}
use nodetalk.Socket.{
  Manager, Timer, TimerKind, heartbeat, liveness, reconnect, connecting, closed, connect,
  disconnect, send, handle_open, handle_message, handle_close, handle_error, heartbeat_fires,
  liveness_fires, reconnect_fires, create_socket_manager,
}

pub data Event : Type 0 where
  connects : Option String → Option (List String) → Event
  disconnects : Event
  sends : String → Event
  opens : ℕ → Event
  receives : ℕ → String → Event
  closes : ℕ → ℕ → Event
  errs : ℕ → Event
  fires : Timer → Event

unfoldable pub fire : ℕ → Timer → TimerKind → Manager → Manager
unfolding heartbeat_fires liveness_fires reconnect_fires
fire now t heartbeat s = heartbeat_fires s
fire now t liveness s = liveness_fires now s
fire now t reconnect s = reconnect_fires t.id s

unfoldable pub step : ℕ → Event → Manager → Manager
unfolding handle_open handle_message handle_close handle_error fire connect disconnect send
step now (connects url protocols) s = connect url protocols s
step now disconnects s = disconnect s
step now (sends text) s = send text s
step now (opens i) s = handle_open now i s
step now (receives i raw) s = handle_message now raw s
step now (closes i code) s = handle_close i code s
step now (errs i) s = handle_error s
step now (fires t) s = fire now t t.kind s

abbrev pub Listed : Timer → List Timer → Type 0
Listed t [] = ⊥
Listed t (x ∷ xs) = (t ≡ x) ⊎ Listed t xs

-- A socket opens once; it closes once; a timer fires while it is live.
abbrev pub CanHappen : Event → Manager → Type 0
CanHappen (connects url protocols) s = Unit
CanHappen disconnects s = Unit
CanHappen (sends text) s = Unit
CanHappen (opens i) s = s.state_of i ≡ connecting
CanHappen (receives i raw) s = s.state_of i ≢ closed
CanHappen (closes i code) s = s.state_of i ≢ closed
CanHappen (errs i) s = s.state_of i ≢ closed
CanHappen (fires t) s = Listed t s.live

pub data Reach : Manager → Type 0 where
  start : Reach create_socket_manager
  next : {s : Manager} (now : ℕ) (e : Event) → CanHappen e s → Reach s → Reach (step now e s)
