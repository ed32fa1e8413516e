-- ===== src/Socket/Timers.antt =====
-- The manager's timers: which are live, and that none is lost from its variables.
use nodetalk.Prelude.{
  ℕ, ◌<◌, ◌≡◌, refl, ◌≢◌, ◌∙◌, Bool, true, not, String, List, [], ◌∷◌, Option, none, some, arith,
  nat_beq, inl, inr, Bool-cases, ◌||◌, filter,
}
use nodetalk.Socket.{
  Manager, create_socket_manager, connect, disconnect, send, handle_open, handle_message,
  handle_close, handle_error, heartbeat_fires, liveness_fires, reconnect_fires, heartbeat,
  put_state, closed, on_close, opened, on_open, initial_reconnect_delay, next_delay, liveness,
  reconnect, Timer, TimerKind, clear, stop_heartbeat, start_heartbeat, schedule_reconnect,
}
use nodetalk.Socket.Step.{
  Event, connects, disconnects, sends, opens, receives, closes, errs, fires, step, fire, Reach,
  start, next, Listed,
}

abbrev pub is_final : Manager → ℕ → Bool
is_final s code = s.disconnected || nat_beq code 1000 || nat_beq code 1001

-- The variable that holds the timer of a kind.
abbrev pub recorded : Manager → TimerKind → Option ℕ
recorded s heartbeat = s.heartbeat_timer
recorded s liveness = s.liveness_timer
recorded s reconnect = s.reconnect_timer

pub record IsTimed (s : Manager) : Type 0 where
  pub below : (t : Timer) → Listed t s.live → t.id < s.next_timer
  pub known : (t : Timer) → Listed t s.live → recorded s t.kind ≡ some t.id
  pub unique : (t u : Timer) → Listed t s.live → Listed u s.live → t.kind ≡ u.kind → t ≡ u

Listed-filter :
    (p : Timer → Bool) (t : Timer) (ts : List Timer)
    → Listed t (filter p ts)
    → Listed t ts × (p t ≡ true)
unfolding filter
Listed-filter p t [] l = absurd l
Listed-filter p t (x ∷ ts) l = ground (arith, Listed-filter p t ts)

pub Listed-clear :
    (o : Option ℕ) (t : Timer) (ts : List Timer)
    → Listed t (clear o ts)
    → Listed t ts × (o ≢ some t.id)
Listed-clear none t ts l = (l, λ e. cc)
Listed-clear (some i) t ts l =
    let (h, p) = Listed-filter (λ x. not (nat_beq x.id i)) t ts l in (h, λ e. ground arith)

reconnect_left :
    (s : Manager) (t : Timer) (k : TimerKind)
    → t.kind ≡ k
    → recorded s t.kind ≡ some t.id
    → s.liveness_timer ≢ some t.id
    → s.heartbeat_timer ≢ some t.id
    → t.kind ≡ reconnect
reconnect_left s t heartbeat e h p q = absurd (q (rw e at h))
reconnect_left s t liveness e h p q = absurd (p (rw e at h))
reconnect_left s t reconnect e h p q = e

-- Keeping some of the live timers and the variables keeps the invariant.
keep-IsTimed :
    (s : Manager) (d : Bool) (o : Option ℕ)
    → IsTimed s
    → IsTimed (record s { disconnected = d; live = clear o s.live })
keep-IsTimed s d o v = record {
  below = λ t l. v.below t (Listed-clear o t s.live l).0;
  known = λ t l. ground (arith, v.known t (Listed-clear o t s.live l).0, recorded_same t.kind);
  unique = λ t u l m. v.unique t u (Listed-clear o t s.live l).0 (Listed-clear o u s.live m).0;
}
  where
    recorded_same :
        (k : TimerKind)
        → recorded (record s { disconnected = d; live = clear o s.live }) k ≡ recorded s k
    recorded_same heartbeat = refl
    recorded_same liveness = refl
    recorded_same reconnect = refl

module _ (s : Manager) (v : IsTimed s) where
  -- Only the reconnect timer survives.
  pub Listed-stop :
      (t : Timer) → Listed t (stop_heartbeat s).live → Listed t s.live × (t.kind ≡ reconnect)
  unfolding stop_heartbeat
  Listed-stop t l =
      let (l', p) = Listed-clear s.liveness_timer t (clear s.heartbeat_timer s.live) l in
      let (l'', q) = Listed-clear s.heartbeat_timer t s.live l' in
      (l'', reconnect_left s t t.kind refl (v.known t l'') p q)

  stop_heartbeat-IsTimed : IsTimed (stop_heartbeat s)
  unfolding stop_heartbeat
  stop_heartbeat-IsTimed = record {
    below = λ t l. v.below t (Listed-stop t l).0;
    known = λ t l. ground (arith, Listed-stop t l, v.known t);
    unique = λ t u l m. v.unique t u (Listed-stop t l).0 (Listed-stop u m).0;
  }

  Listed-clear_reconnect :
      (t : Timer)
      → Listed t (clear s.reconnect_timer s.live)
      → Listed t s.live × (t.kind ≢ reconnect)
  Listed-clear_reconnect t l =
      let (h, p) = Listed-clear s.reconnect_timer t s.live l in (h, λ e. p (rw e at (v.known t h)))

  recorded_scheduled :
      (k : TimerKind) → k ≢ reconnect → recorded (schedule_reconnect s) k ≡ recorded s k
  unfolding schedule_reconnect
  recorded_scheduled heartbeat h = refl
  recorded_scheduled liveness h = refl
  recorded_scheduled reconnect h = absurd (h refl)

  schedule_reconnect-IsTimed : IsTimed (schedule_reconnect s)
  unfolding schedule_reconnect
  schedule_reconnect-IsTimed = record {
    below = λ t l. ground (arith, Listed-clear_reconnect t, v.below t);
    known = λ t l. ground (arith, Listed-clear_reconnect t, v.known t, recorded_scheduled t.kind);
    unique = λ t u l m e.
        ground (arith, Listed-clear_reconnect t, Listed-clear_reconnect u, v.unique t u);
  }

  connect-IsTimed :
      (url : Option String) (protocols : Option (List String)) → IsTimed (connect url protocols s)
  unfolding connect
  connect-IsTimed url protocols = record {
    below = λ t. ground (arith, v.below t);
    known = λ t. ground (arith, v.known t);
    unique = λ t u. ground (arith, v.unique t u);
  }

module _ (s : Manager) (v : IsTimed s) where
  pub disconnect_timers : (t : Timer) → ¬ Listed t (disconnect s).live
  unfolding disconnect
  disconnect_timers t l =
      let cleared = record s { disconnected = true; live = clear s.reconnect_timer s.live } in
      let kept : Listed t cleared.live × (t.kind ≡ reconnect) =
        Listed-stop cleared (keep-IsTimed s true s.reconnect_timer v) t (ground (arith, l)) in
      (Listed-clear_reconnect s v t kept.0).1 kept.1

  disconnect-IsTimed : IsTimed (disconnect s)
  disconnect-IsTimed = record {
    below = λ t l. absurd (disconnect_timers t l);
    known = λ t l. absurd (disconnect_timers t l);
    unique = λ t u l. absurd (disconnect_timers t l);
  }

  start_heartbeat-IsTimed : (now : ℕ) → IsTimed (start_heartbeat now s)
  unfolding start_heartbeat
  start_heartbeat-IsTimed now = record {
    below = λ t l. ground (arith, Listed-stop s v t, v.below t);
    known = λ t l. ground (arith, Listed-stop s v t, v.known t);
    unique = λ t u l m e. ground (arith, Listed-stop s v t, Listed-stop s v u, v.unique t u);
  }

-- The invariant reads nothing but the timers.
abbrev SameTimers : Manager → Manager → Type 0
SameTimers s t =
    (t.live ≡ s.live)
    × (t.next_timer ≡ s.next_timer)
    × (t.heartbeat_timer ≡ s.heartbeat_timer)
    × (t.liveness_timer ≡ s.liveness_timer)
    × (t.reconnect_timer ≡ s.reconnect_timer)

recorded_same : (s t : Manager) (k : TimerKind) → SameTimers s t → recorded t k ≡ recorded s k
recorded_same s t heartbeat e = e.2
recorded_same s t liveness e = e.3
recorded_same s t reconnect e = e.4

same-IsTimed : (s t : Manager) → SameTimers s t → IsTimed s → IsTimed t
same-IsTimed s t e v = record {
  below = λ x. ground (arith, v.below x);
  known = λ x l. recorded_same s t x.kind e ∙ v.known x (rw e.0 at l);
  unique = λ x y l m. v.unique x y (rw e.0 at l) (rw e.0 at m);
}

module _ (s : Manager) (v : IsTimed s) where
  handle_open-IsTimed : (now i : ℕ) → IsTimed (handle_open now i s)
  unfolding handle_open
  handle_open-IsTimed now i =
      let t : Manager = record s {
        state_of = put_state s.state_of i opened;
        reconnect_delay = initial_reconnect_delay;
        effects = on_open ∷ s.effects;
      } in
      start_heartbeat-IsTimed t (same-IsTimed s t (refl, refl, refl, refl, refl) v) now

  handle_close-IsTimed : (i code : ℕ) → IsTimed (handle_close i code s)
  unfolding handle_close
  handle_close-IsTimed i code = elim (Bool-cases (is_final s code)) [
    | inl e ↦ rw e stopped
    | inr e ↦ rw e (schedule_reconnect-IsTimed _ stopped)
  ]
    where
      stopped : IsTimed (record (stop_heartbeat s) {
        state_of = put_state s.state_of i closed;
        effects = on_close code ∷ s.effects;
      })
      stopped =
          same-IsTimed (stop_heartbeat s) _ (refl, refl, refl, refl, refl)
            (stop_heartbeat-IsTimed s v)

  reconnect_fires-IsTimed : (t : ℕ) → IsTimed (reconnect_fires t s)
  unfolding reconnect_fires
  reconnect_fires-IsTimed t =
      let kept : Manager = record s {
        disconnected = s.disconnected;
        live = clear (some t) s.live;
      } in
      let slower : Manager = record kept { reconnect_delay = next_delay s.reconnect_delay } in
      connect-IsTimed slower
        (same-IsTimed kept slower (refl, refl, refl, refl, refl)
          (keep-IsTimed s s.disconnected (some t) v))
        (some s.last_url) s.last_protocols

  fire-IsTimed : (now : ℕ) (t : Timer) (k : TimerKind) → IsTimed (fire now t k s)
  unfolding fire heartbeat_fires liveness_fires
  fire-IsTimed now t heartbeat = same-IsTimed s _ (ground arith) v
  fire-IsTimed now t liveness = same-IsTimed s _ (ground arith) v
  fire-IsTimed now t reconnect = reconnect_fires-IsTimed t.id

step-IsTimed : (s : Manager) (now : ℕ) (e : Event) → IsTimed s → IsTimed (step now e s)
unfolding step handle_message handle_error send
step-IsTimed s now (connects url protocols) v = connect-IsTimed s v url protocols
step-IsTimed s now disconnects v = disconnect-IsTimed s v
step-IsTimed s now (sends text) v = same-IsTimed s _ (ground arith) v
step-IsTimed s now (opens i) v = handle_open-IsTimed s v now i
step-IsTimed s now (receives i raw) v = same-IsTimed s _ (refl, refl, refl, refl, refl) v
step-IsTimed s now (closes i code) v = handle_close-IsTimed s v i code
step-IsTimed s now (errs i) v = same-IsTimed s _ (refl, refl, refl, refl, refl) v
step-IsTimed s now (fires t) v = fire-IsTimed s v now t t.kind

pub Reach-IsTimed : {s : Manager} → Reach s → IsTimed s
unfolding create_socket_manager
Reach-IsTimed start = record {
  below = λ t l. absurd l;
  known = λ t l. absurd l;
  unique = λ t u l. absurd l;
}
Reach-IsTimed (next now e c r) = step-IsTimed _ now e (Reach-IsTimed r)
