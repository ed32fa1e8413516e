-- ===== src/Rtc/Naming.antt =====
-- How an offer names the tracks of a shared screen, line by line.
use Prim.Native.String
use text.Mathlib.Text.{starts_with, find?}
use nodetalk.Prelude.{
  ◌≡◌, ◌⊎◌, inl, inr, refl, String, Bool, true, false, ◌&&◌, List, [], ◌∷◌, map, any, ◌==◌, eq_refl,
  arith, is_some, Bool-cases,
}
use nodetalk.Rtc.Media.{munge_line}

-- The line is the stream of this track.
abbrev pub is_stream_of : String → String → Bool
is_stream_of line id = starts_with line "a=msid:" && is_some (find? line id)

-- The stream of one of these tracks is named "screen", and any other line stays.
abbrev pub IsNamed : List String → String → String → Type 0
IsNamed ids line named =
    ((any (is_stream_of line) ids ≡ false) × (named ≡ line))
    ⊎ ((id : String) × (any (λ i. i == id) ids ≡ true)
        × (is_stream_of line id ≡ true)
        × (named ≡ String.◌++◌ "a=msid:screen " id))

abbrev pub AreNamed : List String → List String → List String → Type 0
AreNamed ids [] [] = Unit
AreNamed ids [] (_ ∷ _) = ⊥
AreNamed ids (_ ∷ _) [] = ⊥
AreNamed ids (line ∷ lines) (named ∷ rest) = IsNamed ids line named × AreNamed ids lines rest

munge_line-IsNamed : (ids : List String) (line : String) → IsNamed ids line (munge_line ids line)
unfolding munge_line any
munge_line-IsNamed [] line = inl (refl, refl)
munge_line-IsNamed (id ∷ ids) line = elim (Bool-cases (is_stream_of line id)) [
  | inl e ↦ inr (id, ground (arith, eq_refl id), e, rw e refl)
  | inr e ↦ elim (munge_line-IsNamed ids line) [
    | inl (h, k) ↦ inl (ground (arith, e, h), rw e k)
    | inr (i, m, h, k) ↦ inr (i, ground (arith, m), h, rw e k)
  ]
]

pub munge-AreNamed : (ids lines : List String) → AreNamed ids lines (map (munge_line ids) lines)
munge-AreNamed ids [] = tt
munge-AreNamed ids (line ∷ lines) = (munge_line-IsNamed ids line, munge-AreNamed ids lines)
