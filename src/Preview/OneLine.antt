-- ===== src/Preview/OneLine.antt =====
-- The preview of a text is one short line.
use mathlib.Core.List.{reverse, reverse-cons}
use nodetalk.Prelude.{
  ℕ, zero, suc, ◌+◌, ◌≤◌, ◌≡◌, ◌⊎◌, refl, Bool, true, false, [], ◌∷◌, ◌++◌, arith, ltb, length,
  length-append, All, if◌then◌else◌, inl, inr, Bool-cases,
}
use nodetalk.Api.{MessageType, text, file, voice, video}
use nodetalk.Preview.{
  Units, is_space, squeeze, trim_start, trim, take, max_preview_length, truncate, body_for_type,
}

-- No white space but the blank.
abbrev pub IsPlain : ℕ → Type 0
IsPlain c = (is_space c ≡ false) ⊎ (c ≡ 32)

space :
    (inside : Bool) (s : Units)
    → All IsPlain (squeeze true s)
    → All IsPlain (if inside then squeeze true s else 32 ∷ squeeze true s)
space true s h = h
space false s h = (inr refl, h)

squeeze-IsPlain : (inside : Bool) (s : Units) → All IsPlain (squeeze inside s)
unfolding squeeze
squeeze-IsPlain inside [] = tt
squeeze-IsPlain inside (c ∷ s) = elim (Bool-cases (is_space c)) [
  | inl e ↦ rw e (space inside s (squeeze-IsPlain true s))
  | inr e ↦ rw e (inl e, squeeze-IsPlain false s)
]

append-All : (xs ys : Units) → All IsPlain xs → All IsPlain ys → All IsPlain (xs ++ ys)
append-All [] ys h k = k
append-All (x ∷ xs) ys h k = (h.0, append-All xs ys h.1 k)

reverse-All : (xs : Units) → All IsPlain xs → All IsPlain (reverse xs)
reverse-All [] h = tt
reverse-All (x ∷ xs) h =
    rw (reverse-cons x xs) (append-All (reverse xs) (x ∷ []) (reverse-All xs h.1) (h.0, tt))

trim_start-All : (xs : Units) → All IsPlain xs → All IsPlain (trim_start xs)
unfolding trim_start
trim_start-All [] h = tt
trim_start-All (x ∷ xs) h = elim (Bool-cases (is_space x)) [
  | inl e ↦ rw e (trim_start-All xs h.1)
  | inr e ↦ rw e h
]

take-All : (n : ℕ) (xs : Units) → All IsPlain xs → All IsPlain (take n xs)
take-All zero xs h = tt
take-All (suc n) [] h = tt
take-All (suc n) (x ∷ xs) h = (h.0, take-All n xs h.1)

length-take-le : (n : ℕ) (xs : Units) → length (take n xs) ≤ n
length-take-le zero xs = omega arith
length-take-le (suc n) [] = omega arith
length-take-le (suc n) (x ∷ xs) = omega (arith, length-take-le n xs)

trim-IsPlain : (s : Units) → All IsPlain s → All IsPlain (trim s)
unfolding trim
trim-IsPlain s h = reverse-All _ (trim_start-All _ (reverse-All _ (trim_start-All s h)))

truncate-le : (s : Units) → length (truncate s) ≤ max_preview_length + 1
unfolding truncate
truncate-le s =
    let line = trim (squeeze false s) in
    elim (Bool-cases (ltb max_preview_length (length line))) [
      | inl e ↦
          let cut = take max_preview_length line in
          rw e
            (omega (arith, length-append cut (8230 ∷ []), length-take-le max_preview_length line))
      | inr e ↦ let short : length line ≤ max_preview_length = ground arith in rw e (omega arith)
    ]

truncate-IsPlain : (s : Units) → All IsPlain (truncate s)
unfolding truncate is_space
truncate-IsPlain s =
    let line = trim (squeeze false s) in
    let plain = trim-IsPlain (squeeze false s) (squeeze-IsPlain false s) in
    elim (Bool-cases (ltb max_preview_length (length line))) [
      | inl e ↦ rw e (
          append-All (take max_preview_length line) (8230 ∷ [])
            (take-All max_preview_length line plain) (inl refl, tt))
      | inr e ↦ rw e plain
    ]

other_kind :
    (kind : MessageType) (s t : Units)
    → (kind ≡ text) ⊎ (body_for_type kind s ≡ body_for_type kind t)
unfolding body_for_type
other_kind text s t = inl refl
other_kind file s t = inr refl
other_kind voice s t = inr refl
other_kind video s t = inr refl

-- The preview of any text is one line of 61 units at most: 60 and an ellipsis, with no white space in it
-- but blanks. The preview of another message does not depend on what it holds.
pub body_for_type_lem :
    (kind : MessageType) (s t : Units)
    → (length (body_for_type text s) ≤ max_preview_length + 1)
      × All IsPlain (body_for_type text s)
      × ((kind ≡ text) ⊎ (body_for_type kind s ≡ body_for_type kind t))
unfolding body_for_type
body_for_type_lem kind s t = (truncate-le s, truncate-IsPlain s, other_kind kind s t)
