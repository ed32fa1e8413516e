-- ===== src/Ports/Tests.antt =====
-- The theorems on the ports at concrete inputs.
use nodetalk.Prelude.{ℕ, refl, String, Bool, [], ◌∷◌, some, nat_beq}
use nodetalk.Socket.{create_socket_manager}
use nodetalk.Socket.Step.{opens, receives, closes}
use nodetalk.Ports.Worker.{SharedWorker, ws_open, ws_message, ws_close, manager_step}
use nodetalk.Ports.Worker.Relay.{IsTold, socket_events_relayed}

abbrev second_closed : ℕ → Bool
second_closed p = nat_beq p 2

abbrev greeting : String
greeting = "hi"

abbrev worker : SharedWorker String
worker = record { manager = create_socket_manager; ports = 1 ∷ 2 ∷ []; posted = [] }

socket_events_relayed_example :
    IsTold some second_closed ws_open worker (manager_step some second_closed 5 (opens 0) worker)
    × IsTold some second_closed
        (ws_close 1006)
        worker
        (manager_step some second_closed 5 (closes 0 1006) worker)
    × IsTold some second_closed
        (ws_message "hi")
        worker
        (manager_step some second_closed 5 (receives 0 "hi") worker)
socket_events_relayed_example =
    socket_events_relayed some second_closed 5 0 1006 "hi" "hi" worker refl
