-- ===== src/Avatars/Live.antt =====
-- The URLs of the cache can be shown: none of them was revoked, and no two pictures share one.
use nodetalk.Prelude.{
  ℕ, suc, ◌<◌, ◌≡◌, refl, String, Bool, true, false, List, [], ◌∷◌, ◌++◌, some, arith, nat_beq,
  ◌==◌, any, any-append, All, Bool-cases, inl, inr,
}
use nodetalk.Prelude.Dict
use nodetalk.Prelude.Dict.{Dict}

abbrev pub holds : ℕ → List ℕ → Bool
holds u = any (λ v. nat_beq v u)

abbrev pub urls : Dict ℕ → List ℕ
urls [] = []
urls ((_, u) ∷ entries) = u ∷ urls entries

-- Each URL is older than `next`, not revoked and in one place only.
abbrev pub AreLive : ℕ → List ℕ → Dict ℕ → Type 0
AreLive next revoked [] = Unit
AreLive next revoked ((_, u) ∷ entries) =
    (u < next)
    × (holds u revoked ≡ false)
    × (holds u (urls entries) ≡ false)
    × AreLive next revoked entries

holds-AreLive :
    (next : ℕ) (revoked : List ℕ) (entries : Dict ℕ)
    → AreLive next revoked entries
    → holds next (urls entries) ≡ false
unfolding any
holds-AreLive next revoked [] v = refl
holds-AreLive next revoked ((_, u) ∷ entries) v =
    ground (arith, v.0, holds-AreLive next revoked entries v.3)

holds-insert :
    (u : ℕ) (id : String) (new : ℕ) (entries : Dict ℕ)
    → nat_beq new u ≡ false
    → holds u (urls entries) ≡ false
    → holds u (urls (Dict.insert id new entries)) ≡ false
unfolding any Dict.insert
holds-insert u id new [] h k = ground (arith, h)
holds-insert u id new ((j, w) ∷ entries) h k = ground (arith, h, k, holds-insert u id new entries h)

holds-erase :
    (u : ℕ) (id : String) (entries : Dict ℕ)
    → holds u (urls entries) ≡ false
    → holds u (urls (Dict.erase id entries)) ≡ false
unfolding any Dict.erase
holds-erase u id [] h = refl
holds-erase u id ((j, w) ∷ entries) h = ground (arith, h, holds-erase u id entries)

later-AreLive :
    (next : ℕ) (revoked : List ℕ) (entries : Dict ℕ)
    → AreLive next revoked entries
    → AreLive (suc next) revoked entries
later-AreLive next revoked [] v = tt
later-AreLive next revoked ((_, u) ∷ entries) v =
    (omega (arith, v.0), v.1, v.2, later-AreLive next revoked entries v.3)

pub insert-AreLive :
    (next : ℕ) (revoked : List ℕ) (id : String) (entries : Dict ℕ)
    → holds next revoked ≡ false
    → AreLive next revoked entries
    → AreLive (suc next) revoked (Dict.insert id next entries)
unfolding any Dict.insert
insert-AreLive next revoked id [] h v = (omega arith, h, refl, tt)
insert-AreLive next revoked id ((j, u) ∷ entries) h v = elim (Bool-cases (j == id)) [
  | inl e ↦ rw e (
    omega arith,
    h,
    holds-AreLive next revoked entries v.3,
    later-AreLive next revoked entries v.3,
  )
  | inr e ↦ rw e (
    omega (arith, v.0),
    v.1,
    holds-insert u id next entries (ground (arith, v.0)) v.2,
    insert-AreLive next revoked id entries h v.3,
  )
]

pub erase-AreLive :
    (next : ℕ) (revoked : List ℕ) (id : String) (entries : Dict ℕ)
    → AreLive next revoked entries
    → AreLive next revoked (Dict.erase id entries)
unfolding any Dict.erase
erase-AreLive next revoked id [] v = tt
erase-AreLive next revoked id ((j, u) ∷ entries) v = elim (Bool-cases (j == id)) [
  | inl e ↦ rw e (erase-AreLive next revoked id entries v.3)
  | inr e ↦ rw e (v.0, v.1, holds-erase u id entries v.2, erase-AreLive next revoked id entries v.3)
]

-- The URL `u` is revoked, which none of the entries has.
pub revoke-AreLive :
    (next u : ℕ) (revoked : List ℕ) (entries : Dict ℕ)
    → holds u (urls entries) ≡ false
    → AreLive next revoked entries
    → AreLive next (revoked ++ u ∷ []) entries
unfolding any
revoke-AreLive next u revoked [] h v = tt
revoke-AreLive next u revoked ((j, w) ∷ entries) h v = (
  v.0,
  ground (arith, h, v.1, any-append (λ x. nat_beq x w) revoked (u ∷ [])),
  v.2,
  revoke-AreLive next u revoked entries (ground (arith, h)) v.3,
)

pub found-held :
    (next : ℕ) (revoked : List ℕ) (id : String) (u : ℕ) (entries : Dict ℕ)
    → AreLive next revoked entries
    → Dict.lookup id entries ≡ some u
    → (holds u (urls entries) ≡ true) × (u < next)
unfolding any Dict.lookup
found-held next revoked id u [] v e = cc
found-held next revoked id u ((j, w) ∷ entries) v e = elim (Bool-cases (j == id)) [
  | inl h ↦ (ground (arith, h, e), ground (arith, h, e, v.0))
  | inr h ↦
      let k = found-held next revoked id u entries v.3 (ground (arith, h, e)) in
      (ground (arith, k.0), k.1)
]

-- What is taken out is not among the others.
pub erased_not_held :
    (next : ℕ) (revoked : List ℕ) (id : String) (u : ℕ) (entries : Dict ℕ)
    → AreLive next revoked entries
    → Dict.lookup id entries ≡ some u
    → holds u (urls (Dict.erase id entries)) ≡ false
unfolding any Dict.erase Dict.lookup
erased_not_held next revoked id u [] v e = cc
erased_not_held next revoked id u ((j, w) ∷ entries) v e = elim (Bool-cases (j == id)) [
  | inl h ↦ let k = holds-erase w id entries v.2 in ground (arith, h, e, k)
  | inr h ↦
      let found : Dict.lookup id entries ≡ some u = ground (arith, h, e) in
      let k = found-held next revoked id u entries v.3 found in
      let rest = erased_not_held next revoked id u entries v.3 found in
      ground (arith, h, k.0, v.2, rest)
]

unfoldable pub AreBelow : ℕ → List ℕ → Type 0
AreBelow next = All (λ u. u < next)

pub holds-AreBelow :
    (next : ℕ) (revoked : List ℕ) → AreBelow next revoked → holds next revoked ≡ false
unfolding AreBelow any
holds-AreBelow next [] v = refl
holds-AreBelow next (u ∷ us) (h, v) = ground (arith, h, holds-AreBelow next us v)

pub later-AreBelow :
    (next : ℕ) (revoked : List ℕ) → AreBelow next revoked → AreBelow (suc next) revoked
unfolding AreBelow
later-AreBelow next [] v = tt
later-AreBelow next (u ∷ us) (h, v) = (omega (arith, h), later-AreBelow next us v)

pub append-AreBelow :
    (next u : ℕ) (revoked : List ℕ)
    → AreBelow next revoked
    → u < next
    → AreBelow next (revoked ++ u ∷ [])
unfolding AreBelow
append-AreBelow next u [] v h = (h, tt)
append-AreBelow next u (w ∷ us) (k, v) h = (k, append-AreBelow next u us v h)
