-- ===== src/Socket/Quiet.antt =====
-- Timers while the client is disconnected or the socket is lost, and the account of all of them.
use nodetalk.Socket.Timers.{
  recorded, IsTimed, Reach-IsTimed, Listed-stop, disconnect_timers, is_final, Listed-clear,
}
use nodetalk.Prelude.{
  ℕ, ◌≡◌, true, false, String, List, Option, some, arith, inl, inr, Bool-cases, ◌⊎◌,
}
use nodetalk.Socket.{
  Manager, create_socket_manager, connect, send, handle_open, handle_message, handle_close,
  handle_error, heartbeat_fires, liveness_fires, reconnect_fires, heartbeat, liveness, reconnect,
  Timer, TimerKind, clear, stop_heartbeat, schedule_reconnect,
}
use nodetalk.Socket.Step.{
  Event, connects, disconnects, sends, opens, receives, closes, errs, fires, step, fire, CanHappen,
  Reach, start, next, Listed,
}
use nodetalk.Socket.Single.{IsSingle, Reach-IsSingle}

-- While the client is disconnected no timer is live.
abbrev pub IsQuiet : Manager → Type 0
IsQuiet s = s.disconnected ≡ true → (t : Timer) → ¬ Listed t s.live

connect_wants :
    (s : Manager) (url : Option String) (protocols : Option (List String))
    → (connect url protocols s).disconnected ≡ false
unfolding connect
connect_wants s url protocols = ground arith

fire-IsQuiet :
    (s : Manager) (now : ℕ) (t : Timer) (k : TimerKind)
    → Listed t s.live
    → IsQuiet s
    → IsQuiet (fire now t k s)
unfolding fire heartbeat_fires liveness_fires reconnect_fires
fire-IsQuiet s now t heartbeat c q d = absurd (q (ground (arith, d)) t c)
fire-IsQuiet s now t liveness c q d = absurd (q (ground (arith, d)) t c)
fire-IsQuiet s now t reconnect c q d = cc (d, connect_wants _ (some s.last_url) s.last_protocols)

handle_close-IsQuiet :
    (s : Manager) (i code : ℕ) → IsTimed s → IsQuiet s → IsQuiet (handle_close i code s)
unfolding handle_close
handle_close-IsQuiet s i code v q d t l =
    let disconnected : s.disconnected ≡ true = ground (arith, d) in
    q disconnected t (Listed-stop s v t (ground (arith, l, disconnected))).0

-- After a close event only a reconnect timer is live.
pub handle_close_timers :
    (s : Manager) (i code : ℕ) (t : Timer)
    → IsTimed s
    → Listed t (handle_close i code s).live
    → t.kind ≡ reconnect
unfolding handle_close stop_heartbeat schedule_reconnect
handle_close_timers s i code t v l = elim (Bool-cases (is_final s code)) [
  | inl e ↦
      let l' : Listed t (stop_heartbeat s).live = ground (arith, l, e) in (Listed-stop s v t l').1
  | inr e ↦
      let split : (t.kind ≡ reconnect)
          ⊎ Listed t (clear s.reconnect_timer (stop_heartbeat s).live) =
        ground (arith, l, e) in
      elim split [
        | inl k ↦ k
        | inr l' ↦
            (Listed-stop s v t (Listed-clear s.reconnect_timer t (stop_heartbeat s).live l').0).1
      ]
]

step-IsQuiet :
    {s : Manager} (now : ℕ) (e : Event)
    → CanHappen e s
    → IsSingle s
    → IsTimed s
    → IsQuiet s
    → IsQuiet (step now e s)
unfolding step handle_open handle_message handle_error send
step-IsQuiet {s} now (connects url protocols) c w v q d t l = cc (connect_wants s url protocols)
step-IsQuiet {s} now disconnects c w v q d t l = disconnect_timers s v t l
step-IsQuiet {s} now (sends text) c w v q d t l = q (ground (arith, d)) t (ground (arith, l))
step-IsQuiet {s} now (opens i) c w v q d t l = ground (arith, w.gone d, w.current i)
step-IsQuiet {s} now (receives i raw) c w v q d t l = q d t l
step-IsQuiet {s} now (closes i code) c w v q d t l = handle_close-IsQuiet s i code v q d t l
step-IsQuiet {s} now (errs i) c w v q d t l = q d t l
step-IsQuiet {s} now (fires x) c w v q d t l = fire-IsQuiet s now x x.kind c q d t l

pub Reach-IsQuiet : {s : Manager} → Reach s → IsQuiet s
unfolding create_socket_manager
Reach-IsQuiet start = λ d t l. absurd l
Reach-IsQuiet (next now e c r) =
    step-IsQuiet now e c (Reach-IsSingle r) (Reach-IsTimed r) (Reach-IsQuiet r)

-- In every state that the manager can get into: each live timer is the one in the manager's variable
-- of its kind, so no timer is ever out of reach of `clearInterval` or `clearTimeout`; two live timers
-- of one kind are the same timer; and while the client is disconnected no timer is live.
pub timers_accounted_for :
    {s : Manager} (t u : Timer)
    → Reach s
    → Listed t s.live
    → Listed u s.live
    → t.kind ≡ u.kind
    → (recorded s t.kind ≡ some t.id) × (t ≡ u) × (s.disconnected ≡ false)
timers_accounted_for {s} t u r l m k =
    let v = Reach-IsTimed r in
    (
      v.known t l,
      v.unique t u l m k,
      ground (arith, λ (d : s.disconnected ≡ true). Reach-IsQuiet r d t l),
    )
