-- ===== src/Socket/Single.antt =====
-- At most one socket is open or on its way to be, and none once the client has disconnected.
use nodetalk.Prelude.{ℕ, ◌<◌, ◌≡◌, refl, true, false, String, List, Option, none, some, arith}
use nodetalk.Socket.{
  Manager, create_socket_manager, is_live, connect, disconnect, send, handle_open, handle_message,
  handle_close, handle_error, heartbeat_fires, liveness_fires, reconnect_fires, connecting,
  heartbeat, liveness, reconnect, Timer, TimerKind,
}
use nodetalk.Socket.Step.{
  Event, connects, disconnects, sends, opens, receives, closes, errs, fires, step, fire, CanHappen,
  Reach, start, next,
}

pub record IsSingle (s : Manager) : Type 0 where
  pub fresh : (j : ℕ) → s.socket ≡ some j → j < s.next_socket
  pub current : (j : ℕ) → is_live (s.state_of j) ≡ true → s.socket ≡ some j
  pub gone : s.disconnected ≡ true → s.socket ≡ none

module _ (s : Manager) (v : IsSingle s) where
  connect-IsSingle :
      (url : Option String) (protocols : Option (List String)) → IsSingle (connect url protocols s)
  unfolding connect
  connect-IsSingle url protocols = record {
    fresh = λ j. ground (arith, v.fresh j);
    current = λ j. ground (arith, v.current j);
    gone = ground arith;
  }

  disconnect-IsSingle : IsSingle (disconnect s)
  unfolding disconnect
  disconnect-IsSingle = record {
    fresh = λ j. ground arith;
    current = λ j. ground (arith, v.current j);
    gone = ground arith;
  }

  send-IsSingle : (text : String) → IsSingle (send text s)
  unfolding send
  send-IsSingle text = record {
    fresh = λ j. ground (arith, v.fresh j);
    current = λ j. ground (arith, v.current j);
    gone = ground arith;
  }

  handle_open-IsSingle : (now i : ℕ) → s.state_of i ≡ connecting → IsSingle (handle_open now i s)
  unfolding handle_open
  handle_open-IsSingle now i h = record {
    fresh = λ j. ground (arith, v.fresh j);
    current = λ j. ground (arith, v.current j);
    gone = ground arith;
  }

  handle_close-IsSingle : (i code : ℕ) → IsSingle (handle_close i code s)
  unfolding handle_close
  handle_close-IsSingle i code = record {
    fresh = λ j. ground (arith, v.fresh j);
    current = λ j. ground (arith, v.current j);
    gone = ground arith;
  }

  heartbeat_fires-IsSingle : IsSingle (heartbeat_fires s)
  unfolding heartbeat_fires
  heartbeat_fires-IsSingle = record {
    fresh = λ j. ground (arith, v.fresh j);
    current = λ j. ground (arith, v.current j);
    gone = ground arith;
  }

  liveness_fires-IsSingle : (now : ℕ) → IsSingle (liveness_fires now s)
  unfolding liveness_fires
  liveness_fires-IsSingle now = record {
    fresh = λ j. ground (arith, v.fresh j);
    current = λ j. ground (arith, v.current j);
    gone = ground arith;
  }

reconnect_fires-IsSingle : (s : Manager) → IsSingle s → (t : ℕ) → IsSingle (reconnect_fires t s)
unfolding reconnect_fires
reconnect_fires-IsSingle s v t =
    connect-IsSingle _ (record { fresh = v.fresh; current = v.current; gone = v.gone })
      (some s.last_url) s.last_protocols

fire-IsSingle :
    (s : Manager) → IsSingle s → (now : ℕ) (t : Timer) (k : TimerKind) → IsSingle (fire now t k s)
unfolding fire
fire-IsSingle s v now t heartbeat = heartbeat_fires-IsSingle s v
fire-IsSingle s v now t liveness = liveness_fires-IsSingle s v now
fire-IsSingle s v now t reconnect = reconnect_fires-IsSingle s v t.id

pub step-IsSingle :
    {s : Manager} (now : ℕ) (e : Event) → CanHappen e s → IsSingle s → IsSingle (step now e s)
unfolding step handle_message handle_error
step-IsSingle {s} now (connects url protocols) c v = connect-IsSingle s v url protocols
step-IsSingle {s} now disconnects c v = disconnect-IsSingle s v
step-IsSingle {s} now (sends text) c v = send-IsSingle s v text
step-IsSingle {s} now (opens i) c v = handle_open-IsSingle s v now i c
step-IsSingle {s} now (receives i raw) c v = record {
  fresh = v.fresh;
  current = v.current;
  gone = v.gone;
}
step-IsSingle {s} now (closes i code) c v = handle_close-IsSingle s v i code
step-IsSingle {s} now (errs i) c v = record { fresh = v.fresh; current = v.current; gone = v.gone }
step-IsSingle {s} now (fires t) c v = fire-IsSingle s v now t t.kind

pub Reach-IsSingle : {s : Manager} → Reach s → IsSingle s
unfolding create_socket_manager
Reach-IsSingle start = record { fresh = λ j e. cc; current = λ j e. cc; gone = λ e. refl }
Reach-IsSingle (next now e c r) = step-IsSingle now e c (Reach-IsSingle r)

-- In every state that the manager can get into, whatever its client, the network and the timers do:
-- two sockets that are connecting or open are the same socket, which is the manager's current one;
-- and while the client is disconnected no socket is connecting or open.
pub single_connection :
    {s : Manager} (i j : ℕ)
    → Reach s
    → is_live (s.state_of i) ≡ true
    → is_live (s.state_of j) ≡ true
    → (s.socket ≡ some i) × (i ≡ j) × (s.disconnected ≡ false)
single_connection {s} i j r h h' =
    let v = Reach-IsSingle r in
    let e = v.current i h in (e, ground (arith, v.current j h'), ground (arith, v.gone))
