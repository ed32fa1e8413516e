-- ===== src/Ports/Worker.antt =====
-- client-web/src/ws/shared.worker.ts: the worker that shares one socket manager among the tabs. The
-- callbacks that it hands to the manager run while the manager works, in the order of the manager's
-- effects. `parse` is `JSON.parse`, with `none` where it throws.
pub mod Relay
use nodetalk.Prelude.{
  ℕ, String, Bool, true, false, List, [], ◌∷◌, ◌++◌, Option, none, some, if◌then◌else◌,
}
use nodetalk.Socket.{
  Manager, Effect, new_socket, send_frame, close_socket, on_open, on_message, on_close, on_error,
  is_open,
}
use nodetalk.Socket.Step.{Event, connects, disconnects, sends, step}
use nodetalk.Ports.{add_port, remove_port, broadcast}

pub data Msg (J : Type 0) : Type 0 where
  ws_open : Msg J
  ws_message : J → Msg J
  ws_close : ℕ → Msg J

pub record SharedWorker (J : Type 0) : Type 0 where
  pub manager : Manager
  pub ports : List ℕ
  -- what was posted, oldest first
  pub posted : List (ℕ × Msg J)

pub data Command : Type 0 where
  connect_command : Option String → Option (List String) → Command
  disconnect_command : Command
  send_command : String → Command
  leave_command : Command

module _ {J : Type 0} (parse : String → Option J) (throws : ℕ → Bool) where
  unfoldable pub broadcast_to_tabs : Msg J → SharedWorker J → SharedWorker J
  unfolding broadcast
  broadcast_to_tabs msg w = record w {
    ports = (broadcast throws msg w.ports).1;
    posted = w.posted ++ (broadcast throws msg w.ports).0;
  }

  -- The callbacks given to `createSocketManager`.
  unfoldable pub callback : Effect → SharedWorker J → SharedWorker J
  unfolding broadcast_to_tabs
  callback on_open w = broadcast_to_tabs ws_open w
  callback (on_message raw) w = elim (parse raw) [
    | none ↦ w
    | some msg ↦ broadcast_to_tabs (ws_message msg) w
  ]
  callback (on_close code) w = broadcast_to_tabs (ws_close code) w
  callback _ w = w

  -- The newest effect is the first.
  unfoldable pub callbacks : List Effect → SharedWorker J → SharedWorker J
  unfolding callback
  callbacks [] w = w
  callbacks (e ∷ es) w = callback e (callbacks es w)

  -- One step of the manager, with the callbacks that it makes.
  unfoldable pub manager_step : ℕ → Event → SharedWorker J → SharedWorker J
  unfolding step callbacks
  manager_step now e w =
      let m = step now e (record (w.manager) { effects = [] }) in
      callbacks m.effects
        (record w { manager = record m { effects = m.effects ++ w.manager.effects } })

  -- `port.postMessage` to a tab that connects.
  unfoldable pub greet : ℕ → SharedWorker J → SharedWorker J
  greet port w =
      if is_open w.manager then record w { posted = w.posted ++ (port, ws_open) ∷ [] } else w

  unfoldable pub tab_connects : ℕ → SharedWorker J → SharedWorker J
  unfolding greet add_port
  tab_connects port w = greet port (record w { ports = add_port port w.ports })

  unfoldable pub tab_command : ℕ → ℕ → Command → SharedWorker J → SharedWorker J
  unfolding manager_step remove_port
  tab_command now port (connect_command url protocols) w =
      manager_step now (connects url protocols) w
  tab_command now port disconnect_command w = manager_step now disconnects w
  tab_command now port (send_command text) w = manager_step now (sends text) w
  tab_command now port leave_command w = record w { ports = remove_port port w.ports }
