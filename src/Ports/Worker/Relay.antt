-- ===== src/Ports/Worker/Relay.antt =====
-- What the tabs are told of the connection.
use nodetalk.Prelude.{ℕ, String, ◌≡◌, ap, Bool, List, [], ◌∷◌, ◌++◌, Option, none, some}
use nodetalk.Socket.{Manager, Effect, on_open, on_message, on_close}
use nodetalk.Socket.Effects.{opens_effects, receives_effects, closes_effects}
use nodetalk.Socket.Step.{Event, opens, receives, closes, step}
use nodetalk.Ports.Broadcast.{alive, to_each, broadcast_lem}
use nodetalk.Ports.Worker.{
  Msg, ws_open, ws_message, ws_close, SharedWorker, broadcast_to_tabs, callback, callbacks,
  manager_step,
}

module _ {J : Type 0} (parse : String → Option J) (throws : ℕ → Bool) where
  -- This message went to each tab that can be reached, in the order of their ports, and to no other;
  -- the ports that cannot be reached are no longer kept.
  abbrev pub IsTold : Msg J → SharedWorker J → SharedWorker J → Type 0
  IsTold msg w w' =
      (w'.posted ≡ w.posted ++ to_each msg (alive throws w.ports))
      × (w'.ports ≡ alive throws w.ports)

  told : (msg : Msg J) (w : SharedWorker J) → IsTold msg w (broadcast_to_tabs parse throws msg w)
  unfolding broadcast_to_tabs
  told msg w =
      let (posts, stay) = broadcast_lem throws msg w.ports in (ap (λ l. w.posted ++ l) posts, stay)

  relayed_open :
      (es : List Effect) (w : SharedWorker J)
      → es ≡ on_open ∷ []
      → IsTold ws_open w (callbacks parse throws es w)
  unfolding callbacks callback
  relayed_open es w h = rw h (told ws_open w)

  relayed_close :
      (code : ℕ) (es : List Effect) (w : SharedWorker J)
      → es ≡ on_close code ∷ []
      → IsTold (ws_close code) w (callbacks parse throws es w)
  unfolding callbacks callback
  relayed_close code es w h = rw h (told (ws_close code) w)

  parsed :
      (raw : String) (msg : J) (w : SharedWorker J)
      → parse raw ≡ some msg
      → callback parse throws (on_message raw) w ≡ broadcast_to_tabs parse throws (ws_message msg) w
  unfolding callback
  parsed raw msg w hp =
      ap (λ o. elim o [ none ↦ w | some msg' ↦ broadcast_to_tabs parse throws (ws_message msg') w ])
        hp

  relayed_message :
      (raw : String) (msg : J) (es : List Effect) (w : SharedWorker J)
      → es ≡ on_message raw ∷ []
      → parse raw ≡ some msg
      → IsTold (ws_message msg) w (callbacks parse throws es w)
  unfolding callbacks
  relayed_message raw msg es w h hp = rw (h, parsed raw msg w hp) (told (ws_message msg) w)

  -- Each event of the shared socket reaches each tab that can be reached once, in the order of their
  -- ports, and the ports that cannot be reached are dropped: that it opened, that it closed with a
  -- code, and a message whose text parses.
  pub socket_events_relayed :
      (now i code : ℕ) (raw : String) (msg : J) (w : SharedWorker J)
      → parse raw ≡ some msg
      → IsTold ws_open w (manager_step parse throws now (opens i) w)
        × IsTold (ws_close code) w (manager_step parse throws now (closes i code) w)
        × IsTold (ws_message msg) w (manager_step parse throws now (receives i raw) w)
  unfolding manager_step
  socket_events_relayed now i code raw msg w hp =
      let m : Manager = record (w.manager) { effects = [] } in
      let after : Event → SharedWorker J = λ e.
        let m' = step now e m in
        record w { manager = record m' { effects = m'.effects ++ w.manager.effects } } in
      (
        relayed_open (step now (opens i) m).effects (after (opens i)) (opens_effects now i m),
        relayed_close code (step now (closes i code) m).effects (after (closes i code))
            (closes_effects now i code m),
        relayed_message raw msg (step now (receives i raw) m).effects (after (receives i raw))
            (receives_effects now i raw m) hp,
      )
