-- ===== src/Prelude/Dict.antt =====
-- A `Map` or a `Record<string, V>`: an association list in insertion order. `insert` on a known key
-- keeps its place, as in JavaScript (whose integer-like keys, which sort first, do not occur here).
use Prim.Native.String.{String}
use mathlib.Core.Path.{◌≡◌, refl}
use mathlib.Core.List.{List, [], ◌∷◌}
use mathlib.Core.Option.{Option, none, some}
use native.Mathlib.Omega.{arith}
use text.Mathlib.Text.{◌==◌}
use text.Mathlib.TextEquality.{eq_iff}
use nodetalk.Prelude.Tests.{if◌then◌else◌}

abbrev pub Dict {ℓ} : Type ℓ → Type ℓ
Dict V = List (String × V)

module _ {ℓ} {V : Type ℓ} where
  unfoldable pub lookup : String → Dict V → Option V
  lookup key [] = none
  lookup key ((first, value) ∷ rest) = if first == key then some value else lookup key rest

  unfoldable pub insert : String → V → Dict V → Dict V
  insert key value [] = (key, value) ∷ []
  insert key value ((first, old) ∷ rest) =
      if first == key then (first, value) ∷ rest else (first, old) ∷ insert key value rest

  -- Every entry of the key goes: there is one at most.
  unfoldable pub erase : String → Dict V → Dict V
  erase key [] = []
  erase key ((first, value) ∷ rest) =
      if first == key then erase key rest else (first, value) ∷ erase key rest

  pub lookup-insert :
      (new key : String) (value : V) (entries : Dict V)
      → lookup key (insert new value entries)
        ≡ (if new == key then some value else lookup key entries)
  unfolding insert lookup
  lookup-insert new key value [] = refl
  lookup-insert new key value ((first, _) ∷ rest) =
      ground (
        lookup-insert new key value rest,
        eq_iff first new,
        eq_iff first key,
        eq_iff new key,
        arith,
      )

  pub lookup-erase :
      (gone key : String) (entries : Dict V)
      → lookup key (erase gone entries) ≡ (if gone == key then none else lookup key entries)
  unfolding erase lookup
  lookup-erase gone key [] = ground arith
  lookup-erase gone key ((first, _) ∷ rest) =
      ground
        (lookup-erase gone key rest, eq_iff first gone, eq_iff first key, eq_iff gone key, arith)
