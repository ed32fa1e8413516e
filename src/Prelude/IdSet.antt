-- ===== src/Prelude/IdSet.antt =====
-- A `Set<string>` as a list in insertion order.
use Prim.Native.String.{String}
use mathlib.Core.Path.{◌≡◌, refl}
use mathlib.Core.Bool.{Bool, false, ◌||◌}
use mathlib.Core.List.{List, [], ◌∷◌}
use native.Mathlib.Omega.{arith}
use text.Mathlib.Text.{◌==◌}
use text.Mathlib.TextEquality.{eq_iff}
use nodetalk.Prelude.Tests.{if◌then◌else◌}

unfoldable pub has : String → List String → Bool
has k [] = false
has k (j ∷ s) = j == k || has k s

unfoldable pub add : String → List String → List String
add k [] = k ∷ []
add k (j ∷ s) = if j == k then j ∷ s else j ∷ add k s

unfoldable pub delete : String → List String → List String
delete k [] = []
delete k (j ∷ s) = if j == k then delete k s else j ∷ delete k s

pub has-add : (k j : String) (s : List String) → has j (add k s) ≡ (k == j || has j s)
unfolding has add
has-add k j [] = refl
has-add k j (i ∷ s) = ground (arith, eq_iff k j, eq_iff i k, eq_iff i j, has-add k j s)

pub has-delete :
    (k j : String) (s : List String) → has j (delete k s) ≡ (if k == j then false else has j s)
unfolding has delete
has-delete k j [] = ground arith
has-delete k j (i ∷ s) = ground (arith, eq_iff k j, eq_iff i k, eq_iff i j, has-delete k j s)
