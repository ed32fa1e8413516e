-- ===== src/Ports.antt =====
-- client-web/src/ws/portRegistry.ts: the ports of the tabs that share a connection. A port is a
-- number; `throws p` says that posting to it throws, which is what a closed tab's port may do.
pub mod Broadcast
pub mod Registry
pub mod Worker
mod Tests
use nodetalk.Prelude.{ℕ, Bool, true, false, List, [], ◌∷◌, ◌++◌, nat_beq, if◌then◌else◌, length}

unfoldable pub add_port : ℕ → List ℕ → List ℕ
add_port port ports = ports ++ port ∷ []

-- `splice` at `indexOf`: the first occurrence goes.
unfoldable pub remove_port : ℕ → List ℕ → List ℕ
remove_port port [] = []
remove_port port (p ∷ ports) = if nat_beq p port then ports else p ∷ remove_port port ports

unfoldable pub registry_size : List ℕ → ℕ
registry_size ports = length ports

-- What a loop over a copy of the ports posts, oldest first, and the ports that stay.
unfoldable pub broadcast_from :
    {M : Type 0} → (ℕ → Bool) → M → List ℕ → List ℕ → List (ℕ × M) × List ℕ
unfolding remove_port
broadcast_from throws msg [] ports = ([], ports)
broadcast_from throws msg (p ∷ rest) ports =
    if throws p then broadcast_from throws msg rest (remove_port p ports) else (
      (p, msg) ∷ (broadcast_from throws msg rest ports).0,
      (broadcast_from throws msg rest ports).1,
    )

unfoldable pub broadcast : {M : Type 0} → (ℕ → Bool) → M → List ℕ → List (ℕ × M) × List ℕ
unfolding broadcast_from
broadcast throws msg ports = broadcast_from throws msg ports ports
