-- ===== src/Audio/Bytes.antt =====
-- Writes that follow one another fill the view from its start.
use nodetalk.Prelude.{
  ℕ, suc, ◌+◌, ◌≡◌, refl, sym, ap, ◌∙◌, List, [], ◌∷◌, ◌++◌, Option, none, some, arith, length,
  length-append,
}
use mathlib.Core.List.{append_assoc, append-nil}
use nodetalk.Audio.{on_rest, set_bytes, zeros, ◌>>=◌}

-- A write at the end of what is there, into zeros.
pub set_bytes_lem :
    (start bytes : List ℕ) (n : ℕ)
    → set_bytes (length start) bytes (start ++ zeros (length bytes + n))
      ≡ some (start ++ bytes ++ zeros n)
unfolding set_bytes
set_bytes_lem [] [] n = ap (λ k. some (zeros k)) (let e : 0 + n ≡ n = omega arith in e)
set_bytes_lem [] (b ∷ bytes) n =
    let e : suc (length bytes) + n ≡ suc (length bytes + n) = omega arith in
    rw e (ap (on_rest b) (set_bytes_lem [] bytes n))
set_bytes_lem (a ∷ start) bytes n = ap (on_rest a) (set_bytes_lem start bytes n)

-- Writes one after the other, each where the last one ended.
unfoldable pub put_all : ℕ → List (List ℕ) → List ℕ → Option (List ℕ)
put_all offset [] view = some view
put_all offset (bytes ∷ parts) view = do
  view' ← set_bytes offset bytes view
  put_all (offset + length bytes) parts view'

abbrev pub flat : List (List ℕ) → List ℕ
flat [] = []
flat (bytes ∷ parts) = bytes ++ flat parts

pub put_all_lem :
    (start : List ℕ) (parts : List (List ℕ)) (offset n : ℕ)
    → offset ≡ length start
    → put_all offset parts (start ++ zeros (length (flat parts) + n))
      ≡ some (start ++ flat parts ++ zeros n)
unfolding put_all
put_all_lem start [] offset n e =
    let k : 0 + n ≡ n = omega arith in
    ap (λ k. some (start ++ zeros k)) k ∙ ap (λ l. some (l ++ zeros n)) (sym (append-nil start))
put_all_lem start (bytes ∷ parts) offset n e =
    let k : length (bytes ++ flat parts) + n ≡ length bytes + (length (flat parts) + n) =
      omega (arith, length-append bytes (flat parts)) in
    let j : offset + length bytes ≡ length (start ++ bytes) =
      omega (arith, length-append start bytes) in
    rw (k, e)
      (ap (λ o. o >>= λ v. put_all (length start + length bytes) parts v)
          (set_bytes_lem start bytes (length (flat parts) + n))
        ∙ put_all_lem (start ++ bytes) parts (length start + length bytes) n (rw (← e) j)
        ∙ ap (λ l. some (l ++ zeros n)) (append_assoc start bytes (flat parts)))

pub bind_cong {ℓ κ} :
    {A : Type ℓ} {B : Type κ} (m : Option A) (f g : A → Option B)
    → ((a : A) → f a ≡ g a)
    → (m >>= f) ≡ (m >>= g)
bind_cong none f g h = refl
bind_cong (some a) f g h = h a

bind_assoc :
    (m : Option (List ℕ)) (f g : List ℕ → Option (List ℕ))
    → (m >>= λ a. (f a >>= g)) ≡ ((m >>= f) >>= g)
bind_assoc none f g = refl
bind_assoc (some a) f g = refl

pub put_all-append :
    (offset next : ℕ) (parts others : List (List ℕ)) (view : List ℕ)
    → offset + length (flat parts) ≡ next
    → put_all offset (parts ++ others) view
      ≡ (put_all offset parts view >>= λ v. put_all next others v)
unfolding put_all
put_all-append offset next [] others view e =
    let k : offset ≡ next = omega (arith, e) in ap (λ o. put_all o others view) k
put_all-append offset next (bytes ∷ parts) others view e =
    bind_cong (set_bytes offset bytes view) _ _ (λ v.
      put_all-append (offset + length bytes) next parts others v
        (omega (arith, e, length-append bytes (flat parts))))
    ∙ bind_assoc (set_bytes offset bytes view) _ _
