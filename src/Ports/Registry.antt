-- ===== src/Ports/Registry.antt =====
-- How many entries the registry has for each port.
use nodetalk.Prelude.{
  ℕ, suc, ◌+◌, ◌-◌, ◌≡◌, ◌≤◌, refl, List, [], ◌∷◌, ◌++◌, arith, nat_beq, if◌then◌else◌, length,
}
use nodetalk.Ports.{add_port, remove_port, registry_size}

abbrev pub entries : ℕ → List ℕ → ℕ
entries q [] = 0
entries q (p ∷ ports) = if nat_beq p q then suc (entries q ports) else entries q ports

entries-append :
    (q p : ℕ) (ports : List ℕ)
    → entries q (ports ++ p ∷ []) ≡ (if nat_beq p q then entries q ports + 1 else entries q ports)
entries-append q p [] = ground arith
entries-append q p (x ∷ ports) = ground (arith, entries-append q p ports)

entries-remove :
    (q p : ℕ) (ports : List ℕ)
    → entries q (remove_port p ports)
      ≡ (if nat_beq p q then entries q ports - 1 else entries q ports)
unfolding remove_port
entries-remove q p [] = ground arith
entries-remove q p (x ∷ ports) = ground (arith, entries-remove q p ports)

entries-le : (q : ℕ) (ports : List ℕ) → entries q ports ≤ length ports
entries-le q [] = omega arith
entries-le q (x ∷ ports) = ground (arith, entries-le q ports)

size-remove :
    (p : ℕ) (ports : List ℕ)
    → registry_size (remove_port p ports)
      ≡ (if nat_beq (entries p ports) 0 then registry_size ports else registry_size ports - 1)
unfolding remove_port registry_size
size-remove p [] = refl
size-remove p (x ∷ ports) = ground (arith, size-remove p ports, entries-le p ports)

-- Adding a port adds one entry for it. Removing a port takes one of its entries out, if it has any,
-- and the registry is one shorter exactly then. No other port's entries change.
pub registry_counts :
    (p q : ℕ) (ports : List ℕ)
    → (entries q (add_port p ports)
        ≡ (if nat_beq p q then entries q ports + 1 else entries q ports))
      × (entries q (remove_port p ports)
          ≡ (if nat_beq p q then entries q ports - 1 else entries q ports))
      × (registry_size (remove_port p ports)
          ≡ (if nat_beq (entries p ports) 0 then registry_size ports else registry_size ports - 1))
unfolding add_port
registry_counts p q ports =
    (entries-append q p ports, entries-remove q p ports, size-remove p ports)
