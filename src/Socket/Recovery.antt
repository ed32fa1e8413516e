-- ===== src/Socket/Recovery.antt =====
-- What a lost connection leads to: reconnecting, and the check for a silent one.
use nodetalk.Prelude.{ℕ, ◌-◌, ◌<◌, ◌≤◌, ◌≡◌, ◌≢◌, true, false, ◌∷◌, none, some, arith, ◌⊎◌}
use nodetalk.Socket.{
  Manager, connect, handle_close, liveness_fires, reconnect_fires, connecting, opened, closing,
  reconnect, Timer, on_close, next_delay, liveness_timeout_ms, is_open, close_socket,
}
use nodetalk.Socket.Step.{closes, fires, step, fire, Reach, Listed}
use nodetalk.Socket.Timers.{Reach-IsTimed}
use nodetalk.Socket.Quiet.{handle_close_timers}

module _ (s : Manager) (i code : ℕ) where
  -- The timer that `schedule_reconnect` starts in the handler of a close event.
  abbrev pub retry : Timer
  retry = record { id = s.next_timer; kind = reconnect; delay = s.reconnect_delay }

  scheduled :
      s.disconnected ≡ false → code ≢ 1000 → code ≢ 1001 → Listed retry (handle_close i code s).live
  unfolding handle_close
  scheduled d p q = ground arith

  fired :
      s.disconnected ≡ false
      → code ≢ 1000
      → code ≢ 1001
      → s.socket ≡ some i
      → let s' = reconnect_fires s.next_timer (handle_close i code s) in
        (s'.socket ≡ some s.next_socket)
        × (s'.state_of s.next_socket ≡ connecting)
        × (s'.last_url ≡ s.last_url)
        × (s'.reconnect_delay ≡ next_delay s.reconnect_delay)
  unfolding handle_close reconnect_fires connect
  fired d p q e = (ground arith, ground arith, ground arith, ground arith)

-- A connection that is lost while the client wants it, with a code other than 1000 and 1001, is
-- retried: the close event starts a live reconnect timer with the current delay, and when that timer
-- fires a new socket is connecting to the same address and the next delay is the longer one.
pub lost_connection_retried :
    (s : Manager) (now later i code : ℕ)
    → s.disconnected ≡ false
    → code ≢ 1000
    → code ≢ 1001
    → s.socket ≡ some i
    → let s' = step now (closes i code) s in
      let s'' = step later (fires (retry s i code)) s' in
      Listed (retry s i code) s'.live
      × (s''.socket ≡ some s.next_socket)
      × (s''.state_of s.next_socket ≡ connecting)
      × (s''.last_url ≡ s.last_url)
      × (s''.reconnect_delay ≡ next_delay s.reconnect_delay)
unfolding step fire
lost_connection_retried s now later i code d p q e =
    let (a, b, c, f) = fired s i code d p q e in (scheduled s i code d p q, a, b, c, f)

-- A tick of the liveness timer closes the current socket exactly if that is open and nothing has
-- come in for more than the timeout; else it changes nothing.
pub liveness_fires_lem :
    (now i : ℕ) (s : Manager)
    → s.socket ≡ some i
    → ((s.state_of i ≡ opened)
        × (liveness_timeout_ms < now - s.last_inbound_at)
        × ((liveness_fires now s).state_of i ≡ closing)
        × ((liveness_fires now s).effects ≡ close_socket i none ∷ s.effects))
      ⊎ (((s.state_of i ≢ opened) ⊎ (now - s.last_inbound_at ≤ liveness_timeout_ms))
          × (liveness_fires now s ≡ s))
unfolding liveness_fires
liveness_fires_lem now i s e = ground arith

-- The close event of a socket that has been replaced stops the heartbeat of its successor: with the
-- current socket open, the event of another one leaves that open but leaves neither a heartbeat nor
-- a liveness timer live, and reports a closed connection to the client.
pub stale_close_stops_heartbeat :
    {s : Manager} (now i j code : ℕ) (t : Timer)
    → Reach s
    → s.socket ≡ some j
    → s.state_of j ≡ opened
    → i ≢ j
    → Listed t (step now (closes i code) s).live
    → let s' = step now (closes i code) s in
      (is_open s' ≡ true) × (s'.effects ≡ on_close code ∷ s.effects) × (t.kind ≡ reconnect)
unfolding step handle_close is_open
stale_close_stops_heartbeat {s} now i j code t r e o n l =
    (ground arith, ground arith, handle_close_timers s i code t (Reach-IsTimed r) l)
