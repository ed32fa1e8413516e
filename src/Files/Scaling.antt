-- ===== src/Files/Scaling.antt =====
-- The sizes of pictures that are made smaller.
use nodetalk.Prelude.{ℕ, ◌+◌, ◌*◌, ◌≤◌, ◌<◌, arith, max, min}
use nodetalk.Files.{round_ratio, fit_image, fit_thumbnail}

-- A rounded ratio is off by a half at most.
round_ratio_bounds :
    (a b c : ℕ)
    → 0 < c
    → (2 * (a * b) ≤ 2 * (round_ratio a b c * c) + c)
      × (2 * (round_ratio a b c * c) ≤ 2 * (a * b) + c)
unfolding round_ratio
round_ratio_bounds a b c h = grind arith

round_ratio-le : (a b c : ℕ) → 0 < c → a ≤ c → round_ratio a b c ≤ b
unfolding round_ratio
round_ratio-le a b c h l = grind arith

shrinks : (a b c : ℕ) → 0 < c → b ≤ c → round_ratio a b c ≤ a
unfolding round_ratio
shrinks a b c h l = grind arith

-- A picture of width w and height h, none of them 0, that is made to fit in a square of side m: it is as
-- large as it was or smaller, it fits, and its proportions are kept up to the rounding of one side to
-- a whole number; and its thumbnail fits in the square and has no side of length 0.
pub fit_image_lem :
    (m w h : ℕ)
    → 0 < m
    → 0 < w
    → 0 < h
    → ((fit_image m w h).0 ≤ min m w)
      × ((fit_image m w h).1 ≤ min m h)
      × (2 * ((fit_image m w h).0 * h) ≤ 2 * ((fit_image m w h).1 * w) + max w h)
      × (2 * ((fit_image m w h).1 * w) ≤ 2 * ((fit_image m w h).0 * h) + max w h)
      × (0 < (fit_thumbnail m m w h).0)
      × ((fit_thumbnail m m w h).0 ≤ m)
      × (0 < (fit_thumbnail m m w h).1)
      × ((fit_thumbnail m m w h).1 ≤ m)
unfolding fit_image fit_thumbnail
fit_image_lem m w h hm hw hh = ground (
  arith,
  round_ratio_bounds h m w hw,
  round_ratio_bounds w m h hh,
  round_ratio-le h m w hw,
  round_ratio-le w m h hh,
  shrinks h m w hw,
  shrinks w m h hh,
)
