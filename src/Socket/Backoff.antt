-- ===== src/Socket/Backoff.antt =====
-- The reconnect delay: from one second, by a factor of 1.5, up to thirty seconds.
use nodetalk.Prelude.{
  ℕ, zero, suc, ◌*◌, ◌^◌, ◌<◌, ◌≤◌, ◌≡◌, refl, List, Option, String, arith, ◌⊎◌, inl, inr,
}
use native.Mathlib.Decide.{dec_lt}
use nodetalk.Socket.{
  Manager, create_socket_manager, initial_reconnect_delay, max_reconnect_delay, next_delay, connect,
  disconnect, send, handle_open, handle_close, heartbeat_fires, liveness_fires, reconnect_fires,
  handle_message, handle_error, TimerKind, heartbeat, liveness, reconnect, Timer,
}
use nodetalk.Socket.Step.{
  Event, connects, disconnects, sends, opens, receives, closes, errs, fires, step, fire, Reach,
  start, next,
}

-- The delay before the n-th attempt in a row, from 0.
pub delay_after : ℕ → ℕ
delay_after zero = initial_reconnect_delay
delay_after (suc n) = next_delay (delay_after n)

delay_after_max : (n : ℕ) → delay_after (suc n) ≤ max_reconnect_delay
unfolding delay_after next_delay
delay_after_max n = omega arith

delay_after_late : (n : ℕ) → 8 < n → delay_after n ≡ max_reconnect_delay
unfolding delay_after next_delay
delay_after_late zero h = absurd (omega arith)
delay_after_late (suc n) h = elim (dec_lt 8 n) [
  | yes p ↦ ground (arith, delay_after_late n p)
  | no p ↦ let e : n ≡ 8 = omega arith in rw e
]

delay_after_early : (n : ℕ) → n < 9 → 2 ^ n * delay_after n ≡ 3 ^ n * initial_reconnect_delay
unfolding delay_after next_delay
delay_after_early zero h = refl
delay_after_early (suc zero) h = refl
delay_after_early (suc (suc zero)) h = refl
delay_after_early (suc (suc (suc zero))) h = refl
delay_after_early (suc (suc (suc (suc zero)))) h = refl
delay_after_early (suc (suc (suc (suc (suc zero))))) h = refl
delay_after_early (suc (suc (suc (suc (suc (suc zero)))))) h = refl
delay_after_early (suc (suc (suc (suc (suc (suc (suc zero))))))) h = refl
delay_after_early (suc (suc (suc (suc (suc (suc (suc (suc zero)))))))) h = refl
delay_after_early (suc (suc (suc (suc (suc (suc (suc (suc (suc n))))))))) h = absurd (omega arith)

-- Either an attempt is one of the first nine in a row, and its delay is 1000 ms times 1.5 ^ n with
-- nothing lost to rounding, or it is a later one, and its delay is 30 seconds.
pub backoff_schedule :
    (n : ℕ)
    → ((n < 9) × (2 ^ n * delay_after n ≡ 3 ^ n * initial_reconnect_delay))
      ⊎ ((8 < n) × (delay_after n ≡ max_reconnect_delay))
backoff_schedule n = elim (nine n) [
  | inl h ↦ inl (h, delay_after_early n h)
  | inr h ↦ inr (h, delay_after_late n h)
]
  where
    nine : (n : ℕ) → (n < 9) ⊎ (8 < n)
    nine n = ground arith

abbrev pub OnSchedule : Manager → Type 0
OnSchedule s = (n : ℕ) × (s.reconnect_delay ≡ delay_after n)

module _ (s : Manager) (v : OnSchedule s) where
  connect-OnSchedule :
      (url : Option String) (protocols : Option (List String))
      → OnSchedule (connect url protocols s)
  unfolding connect
  connect-OnSchedule url protocols = (v.0, ground (arith, v.1))

  disconnect-OnSchedule : OnSchedule (disconnect s)
  unfolding disconnect
  disconnect-OnSchedule = (v.0, ground (arith, v.1))

  send-OnSchedule : (text : String) → OnSchedule (send text s)
  unfolding send
  send-OnSchedule text = (v.0, ground (arith, v.1))

  handle_open-OnSchedule : (now i : ℕ) → OnSchedule (handle_open now i s)
  unfolding handle_open delay_after
  handle_open-OnSchedule now i = (0, ground arith)

  handle_close-OnSchedule : (i code : ℕ) → OnSchedule (handle_close i code s)
  unfolding handle_close
  handle_close-OnSchedule i code = (v.0, ground (arith, v.1))

  fire-OnSchedule : (now : ℕ) (t : Timer) (k : TimerKind) → OnSchedule (fire now t k s)
  unfolding fire heartbeat_fires liveness_fires reconnect_fires connect delay_after
  fire-OnSchedule now t heartbeat = (v.0, ground (arith, v.1))
  fire-OnSchedule now t liveness = (v.0, ground (arith, v.1))
  fire-OnSchedule now t reconnect = (suc v.0, ground (arith, v.1))

step-OnSchedule : (s : Manager) (now : ℕ) (e : Event) → OnSchedule s → OnSchedule (step now e s)
unfolding step handle_message handle_error
step-OnSchedule s now (connects url protocols) v = connect-OnSchedule s v url protocols
step-OnSchedule s now disconnects v = disconnect-OnSchedule s v
step-OnSchedule s now (sends text) v = send-OnSchedule s v text
step-OnSchedule s now (opens i) v = handle_open-OnSchedule s v now i
step-OnSchedule s now (receives i raw) v = v
step-OnSchedule s now (closes i code) v = handle_close-OnSchedule s v i code
step-OnSchedule s now (errs i) v = v
step-OnSchedule s now (fires t) v = fire-OnSchedule s v now t t.kind

Reach-OnSchedule : {s : Manager} → Reach s → OnSchedule s
unfolding create_socket_manager delay_after
Reach-OnSchedule start = (0, refl)
Reach-OnSchedule (next now e c r) = step-OnSchedule _ now e (Reach-OnSchedule r)

-- In every state that the manager can get into, there is a number of attempts n, either below nine,
-- with the reconnect delay 1000 ms times 1.5 ^ n, nothing lost to rounding, or nine or more, with a
-- reconnect delay of 30 seconds.
pub reconnect_delay_lem :
    {s : Manager}
    → Reach s
    → (n : ℕ) × (((n < 9) × (2 ^ n * s.reconnect_delay ≡ 3 ^ n * initial_reconnect_delay))
        ⊎ ((8 < n) × (s.reconnect_delay ≡ max_reconnect_delay)))
reconnect_delay_lem {s} r = let (n, e) = Reach-OnSchedule r in (n, rw e (backoff_schedule n))
