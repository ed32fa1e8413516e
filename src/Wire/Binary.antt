-- ===== src/Wire/Binary.antt =====
-- client-web/src/ws.ts: what it takes from the browser, and the loops between bytes and base64. A text
-- is a sequence of Unicode scalar values; a lone surrogate, which the browser's encoder replaces, is
-- none.
use Prim.Native.Nat.{Ordering, compare}
use Prim.Native.Char.{Char, char, code, nul, IsScalar}
use Prim.Native.String.{[] as empty, ◌∷◌ as ◌∷ˢ◌}
use text.Mathlib.TextEquality.{Char-path}
use nodetalk.Prelude.{
  ℕ, ◌<◌, ◌≡◌, refl, ap, String, List, [], ◌∷◌, Option, none, some, arith, nat_beq, All,
  if◌then◌else◌,
}

-- The character with this number, where there is one.
by_order :
    (n : ℕ) (o p q : Ordering)
    → compare n 55296 ≡ o
    → compare 57343 n ≡ p
    → compare n 1114112 ≡ q
    → Char
by_order n Ordering.lt p q e f g = char n (rw e tt)
by_order n Ordering.eq Ordering.lt Ordering.lt e f g = char n (rw (e, f, g) tt)
by_order n Ordering.gt Ordering.lt Ordering.lt e f g = char n (rw (e, f, g) tt)
by_order n _ _ _ e f g = nul

unfoldable pub from_code_point : ℕ → Char
unfolding by_order
from_code_point n =
    by_order n (compare n 55296) (compare 57343 n) (compare n 1114112) refl refl refl

by_order-low :
    (n : ℕ) (o p q : Ordering) (e : compare n 55296 ≡ o) (f : compare 57343 n ≡ p)
    (g : compare n 1114112 ≡ q)
    → n < 256
    → code (by_order n o p q e f g) ≡ n
unfolding by_order
by_order-low n Ordering.lt p q e f g l = refl
by_order-low n Ordering.eq p q e f g l = absurd (ground arith)
by_order-low n Ordering.gt p q e f g l = absurd (ground arith)

code-from_code_point : (n : ℕ) → n < 256 → code (from_code_point n) ≡ n
unfolding from_code_point
code-from_code_point n l = by_order-low n _ _ _ refl refl refl l

-- `Array.from(bytes, String.fromCodePoint).join('')`, and its reverse.
unfoldable pub binary_string : List ℕ → String
unfolding from_code_point
binary_string [] = ""
binary_string (byte ∷ bytes) = from_code_point byte ∷ˢ binary_string bytes

unfoldable pub code_points : String → List ℕ
code_points empty = []
code_points (c ∷ˢ text) = code c ∷ code_points text

pub code_points-binary_string :
    (bytes : List ℕ) → All (λ n. n < 256) bytes → code_points (binary_string bytes) ≡ bytes
unfolding code_points binary_string
code_points-binary_string [] h = refl
code_points-binary_string (b ∷ bytes) (h, hs) =
    rw (code-from_code_point b h) (ap (λ xs. b ∷ xs) (code_points-binary_string bytes hs))

by_order-exact :
    (n : ℕ) (o p q : Ordering) (e : compare n 55296 ≡ o) (f : compare 57343 n ≡ p)
    (g : compare n 1114112 ≡ q) (s : IsScalar n)
    → by_order n o p q e f g ≡ char n s
unfolding by_order
by_order-exact n Ordering.lt p q e f g s = Char-path _ _ refl
by_order-exact n Ordering.eq Ordering.lt Ordering.lt e f g s = Char-path _ _ refl
by_order-exact n Ordering.eq Ordering.lt Ordering.eq e f g s = absurd (rw (e, f, g) at s)
by_order-exact n Ordering.eq Ordering.lt Ordering.gt e f g s = absurd (rw (e, f, g) at s)
by_order-exact n Ordering.eq Ordering.eq q e f g s = absurd (rw (e, f) at s)
by_order-exact n Ordering.eq Ordering.gt q e f g s = absurd (rw (e, f) at s)
by_order-exact n Ordering.gt Ordering.lt Ordering.lt e f g s = Char-path _ _ refl
by_order-exact n Ordering.gt Ordering.lt Ordering.eq e f g s = absurd (rw (e, f, g) at s)
by_order-exact n Ordering.gt Ordering.lt Ordering.gt e f g s = absurd (rw (e, f, g) at s)
by_order-exact n Ordering.gt Ordering.eq q e f g s = absurd (rw (e, f) at s)
by_order-exact n Ordering.gt Ordering.gt q e f g s = absurd (rw (e, f) at s)

pub from_code_point-code : (c : Char) → from_code_point (code c) ≡ c
unfolding from_code_point
from_code_point-code (char n s) = by_order-exact n _ _ _ refl refl refl s

-- What `new TextDecoder().decode` leaves out: a byte order mark at the start.
unfoldable pub without_bom : String → String
without_bom empty = ""
without_bom (c ∷ˢ text) = if nat_beq (code c) 0xfeff then text else c ∷ˢ text

-- AES-GCM with a raw key, whose import may fail; `Uint8Array`, by its elements; text and base64, of which
-- `atob` may throw.
pub record Browser (Bytes : Type 0) : Type 0 where
  -- `new Uint8Array(12)`
  pub zeros : Bytes
  pub encrypt : Bytes → Bytes → Bytes → Option Bytes
  pub decrypt : Bytes → Bytes → Bytes → Option Bytes
  pub encode : String → Bytes
  pub decode : Bytes → String
  pub elements : Bytes → List ℕ
  -- `Uint8Array.from`
  pub from_elements : List ℕ → Bytes
  pub btoa : String → String
  pub atob : String → Option String
  pub decrypt-encrypt :
      (key iv bytes sealed : Bytes)
      → encrypt key iv bytes ≡ some sealed
      → decrypt key iv sealed ≡ some bytes
  pub decode-encode : (text : String) → decode (encode text) ≡ without_bom text
  pub from_elements-elements : (bytes : Bytes) → from_elements (elements bytes) ≡ bytes
  pub atob-btoa :
      (text : String) → All (λ n. n < 256) (code_points text) → atob (btoa text) ≡ some text

module _ {Bytes : Type 0} where
  unfoldable pub bytes_to_base64 : Browser Bytes → Bytes → String
  unfolding binary_string
  bytes_to_base64 b bytes = b.btoa (binary_string (b.elements bytes))

  unfoldable pub base64_to_bytes : Browser Bytes → String → Option Bytes
  unfolding code_points
  base64_to_bytes b base64 = elim (b.atob base64) [
    | none ↦ none
    | some text ↦ some (b.from_elements (code_points text))
  ]

  pub base64_lem :
      (b : Browser Bytes) (bytes : Bytes)
      → All (λ n. n < 256) (b.elements bytes)
      → base64_to_bytes b (bytes_to_base64 b bytes) ≡ some bytes
  unfolding base64_to_bytes bytes_to_base64
  base64_lem b bytes h =
      let e = code_points-binary_string (b.elements bytes) h in
      let small : All (λ n. n < 256) (code_points (binary_string (b.elements bytes))) = rw e h in
      rw
        (
          b.atob-btoa (binary_string (b.elements bytes)) small,
          e,
          b.from_elements-elements bytes,
          base64_to_bytes,
          bytes_to_base64,
        )
        refl
