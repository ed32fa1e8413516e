-- ===== src/Ports/Broadcast.antt =====
-- What a broadcast delivers, and which ports it drops.
use mathlib.Core.List.{append_assoc}
use nodetalk.Prelude.{
  ℕ, ◌≡◌, refl, sym, ap, ◌∙◌, Bool, true, false, not, List, [], ◌∷◌, ◌++◌, nat_beq, filter, All,
  arith, Bool-cases, inl, inr,
}
use nodetalk.Ports.{remove_port, broadcast_from, broadcast}

abbrev pub alive : (ℕ → Bool) → List ℕ → List ℕ
alive throws = filter (λ p. not (throws p))

abbrev pub to_each : {M : Type 0} → M → List ℕ → List (ℕ × M)
to_each msg [] = []
to_each msg (p ∷ ps) = (p, msg) ∷ to_each msg ps

distinct : (throws : ℕ → Bool) (k p : ℕ) → throws k ≡ false → throws p ≡ true → nat_beq k p ≡ false
distinct throws k p hk hp = ground arith

-- A port that throws is not among those that do not.
remove_port-append :
    (throws : ℕ → Bool) (p : ℕ) (kept rest : List ℕ)
    → All (λ k. throws k ≡ false) kept
    → throws p ≡ true
    → remove_port p (kept ++ p ∷ rest) ≡ kept ++ rest
unfolding remove_port
remove_port-append throws p [] rest a h = ground arith
remove_port-append throws p (k ∷ kept) rest a h =
    let differs = distinct throws k p a.0 h in
    rw differs (ap (λ l. k ∷ l) (remove_port-append throws p kept rest a.1 h))

All-snoc :
    (throws : ℕ → Bool) (kept : List ℕ) (p : ℕ)
    → All (λ k. throws k ≡ false) kept
    → throws p ≡ false
    → All (λ k. throws k ≡ false) (kept ++ p ∷ [])
All-snoc throws [] p a h = (h, tt)
All-snoc throws (k ∷ kept) p a h = (a.0, All-snoc throws kept p a.1 h)

broadcast_from_lem :
    {M : Type 0} (throws : ℕ → Bool) (msg : M) (kept rest : List ℕ)
    → All (λ k. throws k ≡ false) kept
    → ((broadcast_from throws msg rest (kept ++ rest)).0 ≡ to_each msg (alive throws rest))
      × ((broadcast_from throws msg rest (kept ++ rest)).1 ≡ kept ++ alive throws rest)
unfolding broadcast_from filter
broadcast_from_lem throws msg kept [] a = (refl, refl)
broadcast_from_lem throws msg kept (p ∷ rest) a = elim (Bool-cases (throws p)) [
  | inl h ↦
      rw (h, remove_port-append throws p kept rest a h) (broadcast_from_lem throws msg kept rest a)
  | inr h ↦
      let (posts, stay) =
        broadcast_from_lem throws msg (kept ++ p ∷ []) rest (All-snoc throws kept p a h) in
      let moved = append_assoc kept (p ∷ []) rest in
      rw (h) (
        ap (λ l. (p, msg) ∷ l)
            (ap (λ ps. (broadcast_from throws msg rest ps).0) (sym moved) ∙ posts),
        ap (λ ps. (broadcast_from throws msg rest ps).1) (sym moved)
            ∙ stay
            ∙ append_assoc kept (p ∷ []) (alive throws rest),
      )
]

-- A broadcast posts the message once to each entry of the registry whose port does not throw, in the
-- order of the registry, and keeps exactly those entries.
pub broadcast_lem :
    {M : Type 0} (throws : ℕ → Bool) (msg : M) (ports : List ℕ)
    → ((broadcast throws msg ports).0 ≡ to_each msg (alive throws ports))
      × ((broadcast throws msg ports).1 ≡ alive throws ports)
unfolding broadcast
broadcast_lem throws msg ports = broadcast_from_lem throws msg [] ports tt
