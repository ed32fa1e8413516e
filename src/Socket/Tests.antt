-- ===== src/Socket/Tests.antt =====
-- Runs of the manager, and the theorems at concrete inputs.
use nodetalk.Prelude.{
  ℕ, ◌*◌, ◌^◌, ◌≡◌, refl, true, false, List, [], ◌∷◌, none, some, arith, filter, inl, inr, ◌⊎◌, ◌<◌,
}
use nodetalk.Socket.{
  initial_reconnect_delay, max_reconnect_delay, Manager, create_socket_manager, is_open, Timer,
  heartbeat,
}
use nodetalk.Socket.Step.{Event, step, Reach, start, next, connects, opens, closes, fires}
use nodetalk.Socket.Backoff.{reconnect_delay_lem}
use nodetalk.Socket.Single.{single_connection}
use nodetalk.Socket.Timers.{recorded}
use nodetalk.Socket.Quiet.{timers_accounted_for}
use nodetalk.Socket.Recovery.{lost_connection_retried, retry}

abbrev run : List Event → Manager → Manager
run [] s = s
run (e ∷ es) s = run es (step 5 e s)

first : Manager
unfolding step create_socket_manager
first = run (connects (some "ws://a") none ∷ opens 0 ∷ []) create_socket_manager

moved : Manager
unfolding step create_socket_manager
moved =
    run (connects (some "ws://a") none ∷ opens 0 ∷ connects (some "ws://b") none ∷ opens 1 ∷ [])
      create_socket_manager

first-Reach : Reach first
unfolding first
first-Reach = next 5 (opens 0) refl (next 5 (connects (some "ws://a") none) tt start)

moved-Reach : Reach moved
unfolding moved first filter
moved-Reach = next 5 (opens 1) refl (next 5 (connects (some "ws://b") none) tt first-Reach)

-- The heartbeat runs, and each kind of timer is known.
first_open : is_open first ≡ true
unfolding first is_open
first_open = refl

abbrev heartbeat_timer : Timer
heartbeat_timer = record { id = 1; kind = heartbeat; delay = 12_800_000 }

single_connection_example :
    (first.socket ≡ some 0) × (◌≡◌ {A = ℕ} 0 0) × (first.disconnected ≡ false)
unfolding first
single_connection_example = single_connection {s = first} 0 0 first-Reach refl refl

timers_accounted_for_example : recorded first heartbeat ≡ some 1
unfolding first filter
timers_accounted_for_example =
    (timers_accounted_for {s = first} heartbeat_timer heartbeat_timer first-Reach (inr (inl refl))
      (inr (inl refl)) refl).0

reconnect_delay_lem_example :
    (n : ℕ) × (((n < 9) × (2 ^ n * first.reconnect_delay ≡ 3 ^ n * initial_reconnect_delay))
      ⊎ ((8 < n) × (first.reconnect_delay ≡ max_reconnect_delay)))
reconnect_delay_lem_example = reconnect_delay_lem {s = first} first-Reach

lost_connection_retried_example :
    (step 9 (fires (retry first 0 1006)) (step 7 (closes 0 1006) first)).socket ≡ some 1
unfolding first
lost_connection_retried_example =
    (lost_connection_retried first 7 9 0 1006 refl (omega arith) (omega arith) refl).1

abbrev retry_timer : Timer
retry_timer = retry moved 0 1006
