-- ===== src/Whisper/Crypto/SafetyNumber.antt =====
-- The safety number: twelve groups of five digits, which fix the bytes that they come from.
use mathlib.Core.Path.{ap₂}
use Prim.Native.String
use nodetalk.Prelude.{
  ℕ, zero, suc, ◌+◌, ◌*◌, ◌/◌, ◌%◌, ◌≤◌, ◌<◌, ◌≡◌, refl, sym, ap, ◌∙◌, String, List, [], ◌∷◌, ◌++◌,
  Option, some, arith, length, All, map,
}
use nodetalk.Whisper.Platform.{Platform, Bytes}
use nodetalk.Whisper.Crypto.{
  get_uint16, pad5, groups_from, join_groups, format_safety_number, first_bytes, Secrets,
  derive_whisper_secrets, sorted_users, hex_of,
}

abbrev pub AreBytes : Bytes → Type 0
AreBytes = All (λ b. b < 256)

-- The two-byte numbers, in order.
values : ℕ → Bytes → List ℕ
values zero bytes = []
values (suc n) [] = []
values (suc n) (hi ∷ []) = []
values (suc n) (hi ∷ lo ∷ rest) = (hi * 256 + lo) ∷ values n rest

get_uint16_shift :
    (hi lo : ℕ) (rest : Bytes) (i : ℕ)
    → get_uint16 (hi ∷ lo ∷ rest) (suc (suc i)) ≡ get_uint16 rest i
unfolding get_uint16
get_uint16_shift hi lo [] i = refl
get_uint16_shift hi lo (r ∷ []) i = refl
get_uint16_shift hi lo (r ∷ q ∷ rest) i = refl

groups_from_shift :
    (n i : ℕ) (hi lo : ℕ) (rest : Bytes)
    → groups_from n (suc i) (hi ∷ lo ∷ rest) ≡ groups_from n i rest
unfolding groups_from
groups_from_shift zero i hi lo rest = refl
groups_from_shift (suc n) i hi lo rest =
    let e : suc i * 2 ≡ suc (suc (i * 2)) = omega arith in
    rw (e, get_uint16_shift hi lo rest (i * 2), groups_from_shift n (suc i) hi lo rest)

groups_from_lem :
    (n : ℕ) (bytes : Bytes)
    → AreBytes bytes
    → n * 2 ≤ length bytes
    → groups_from n 0 bytes ≡ some (map pad5 (values n bytes))
unfolding groups_from values get_uint16
groups_from_lem zero bytes a h = refl
groups_from_lem (suc n) [] a h = absurd (omega arith)
groups_from_lem (suc n) (hi ∷ []) a h = absurd (omega arith)
groups_from_lem (suc n) (hi ∷ lo ∷ rest) a h =
    let e : (hi * 256 + lo) % 100_000 ≡ hi * 256 + lo = omega arith in
    rw (groups_from_shift n 0 hi lo rest, groups_from_lem n rest a.1.1 (omega arith), e)

pad5_inj : (v w : ℕ) → v < 100_000 → w < 100_000 → pad5 v ≡ pad5 w → v ≡ w
unfolding pad5
pad5_inj v w hv hw e = let (a, b, c, d, f) = digits in omega arith
  where
    digits :
        (v / 10_000 % 10 ≡ w / 10_000 % 10)
        × (v / 1000 % 10 ≡ w / 1000 % 10)
        × (v / 100 % 10 ≡ w / 100 % 10)
        × (v / 10 % 10 ≡ w / 10 % 10)
        × (v % 10 ≡ w % 10)
    digits = ground (arith, e)

pad5_split :
    (v w : ℕ) (xs ys : List ℕ) → pad5 v ++ xs ≡ pad5 w ++ ys → (pad5 v ≡ pad5 w) × (xs ≡ ys)
unfolding pad5
pad5_split v w xs ys e = (ground (arith, e), ground (arith, e))

heads : (v w : ℕ) (vs ws : List ℕ) → v ∷ vs ≡ w ∷ ws → (v ≡ w) × (vs ≡ ws)
heads v w vs ws e = (ground (arith, e), ground (arith, e))

abbrev AreGroups : List ℕ → Type 0
AreGroups = All (λ v. v < 100_000)

join_groups_inj :
    (vs ws : List ℕ)
    → AreGroups vs
    → AreGroups ws
    → length vs ≡ length ws
    → join_groups (map pad5 vs) ≡ join_groups (map pad5 ws)
    → vs ≡ ws
unfolding join_groups
join_groups_inj [] [] a b l e = refl
join_groups_inj [] (w ∷ ws) a b l e = absurd (omega arith)
join_groups_inj (v ∷ vs) [] a b l e = absurd (omega arith)
join_groups_inj (v ∷ []) (w ∷ []) a b l e = ap (λ x. x ∷ []) (pad5_inj v w a.0 b.0 e)
join_groups_inj (v ∷ []) (w ∷ x ∷ ws) a b l e = absurd (omega arith)
join_groups_inj (v ∷ x ∷ vs) (w ∷ []) a b l e = absurd (omega arith)
join_groups_inj (v ∷ x ∷ vs) (w ∷ y ∷ ws) a b l e =
    let (here, later) = pad5_split v w _ _ e in
    ap₂ ◌∷◌ (pad5_inj v w a.0 b.0 here)
      (join_groups_inj (x ∷ vs) (y ∷ ws) a.1 b.1 (omega arith) (ground (arith, later)))

values_lem :
    (n : ℕ) (bytes : Bytes)
    → AreBytes bytes
    → n * 2 ≤ length bytes
    → AreGroups (values n bytes) × (length (values n bytes) ≡ n)
unfolding values
values_lem zero bytes a h = (tt, refl)
values_lem (suc n) [] a h = absurd (omega arith)
values_lem (suc n) (hi ∷ []) a h = absurd (omega arith)
values_lem (suc n) (hi ∷ lo ∷ rest) a h =
    let (g, l) = values_lem n rest a.1.1 (omega arith) in ((omega arith, g), ap suc l)

values_inj :
    (n : ℕ) (b c : Bytes)
    → AreBytes b
    → AreBytes c
    → n * 2 ≤ length b
    → n * 2 ≤ length c
    → values n b ≡ values n c
    → first_bytes (n * 2) b ≡ first_bytes (n * 2) c
unfolding values first_bytes
values_inj zero b c ab ac hb hc e = refl
values_inj (suc n) (x ∷ y ∷ b) (z ∷ w ∷ c) ab ac hb hc e =
    let two : suc n * 2 ≡ suc (suc (n * 2)) = omega arith in
    let (here, later) = heads (x * 256 + y) (z * 256 + w) (values n b) (values n c) e in
    let ex : x ≡ z = omega arith in
    let ey : y ≡ w = omega arith in
    rw (two, ex, ey, values_inj n b c ab.1.1 ac.1.1 (omega arith) (omega arith) later)
values_inj (suc n) [] c ab ac hb hc e = absurd (omega arith)
values_inj (suc n) (x ∷ []) c ab ac hb hc e = absurd (omega arith)
values_inj (suc n) (x ∷ y ∷ b) [] ab ac hb hc e = absurd (omega arith)
values_inj (suc n) (x ∷ y ∷ b) (z ∷ []) ab ac hb hc e = absurd (omega arith)

length-join_groups :
    (v : ℕ) (vs : List ℕ) → length (join_groups (map pad5 (v ∷ vs))) ≡ 5 + 6 * length vs
unfolding join_groups pad5
length-join_groups v [] = refl
length-join_groups v (w ∷ vs) = omega (arith, length-join_groups w vs)

length_of :
    (n : ℕ) (vs : List ℕ) → length vs ≡ suc n → length (join_groups (map pad5 vs)) ≡ 5 + 6 * n
length_of n [] e = absurd (omega arith)
length_of n (v ∷ vs) e = omega (arith, length-join_groups v vs)

some_inj : {s t : List ℕ} → ◌≡◌ {A = Option (List ℕ)} (some s) (some t) → s ≡ t
some_inj e = cc

format_lem :
    (b : Bytes)
    → AreBytes b
    → 24 ≤ length b
    → format_safety_number b ≡ some (join_groups (map pad5 (values 12 b)))
unfolding format_safety_number
format_lem b a h = rw (groups_from_lem 12 b a h)

-- Two fingerprints of 24 bytes or more with the same safety number: it is produced, it has 71
-- characters, and the fingerprints agree in their first 24 bytes.
pub safety_number_lem :
    (b c : Bytes)
    → AreBytes b
    → AreBytes c
    → 24 ≤ length b
    → 24 ≤ length c
    → format_safety_number b ≡ format_safety_number c
    → (s : List ℕ) × (format_safety_number b ≡ some s)
      × (length s ≡ 71)
      × (first_bytes 24 b ≡ first_bytes 24 c)
safety_number_lem b c ab ac hb hc e = (
  join_groups (map pad5 (values 12 b)),
  format_lem b ab hb,
  length_of 11 (values 12 b) (values_lem 12 b ab hb).1,
  values_inj 12 b c ab ac hb hc (
      join_groups_inj (values 12 b) (values 12 c) (values_lem 12 b ab hb).0
        (values_lem 12 c ac hc).0 ((values_lem 12 b ab hb).1 ∙ sym (values_lem 12 c ac hc).1)
        (some_inj (sym (format_lem b ab hb) ∙ e ∙ format_lem c ac hc))),
)

module _ (P : Platform) where
  -- Deriving the secrets never throws: HKDF gives 32 bytes, which is enough for the safety number.
  pub derive_whisper_secrets_total :
      (a : P.PrivateKey) (k : P.PublicKey) (session_id user_a user_b : String)
      → (r : Secrets P) × (derive_whisper_secrets P a k session_id user_a user_b ≡ some r)
        × (length r.safety_number ≡ 71)
  unfolding derive_whisper_secrets
  derive_whisper_secrets_total a k session_id user_a user_b =
      let info = String.◌++◌ "nodetalk-whisper-v1-safety-number-" (sorted_users user_a user_b) in
      let bytes = P.hkdf_bytes (P.ecdh a k) info in
      let long : 24 ≤ length bytes = omega (arith, P.hkdf_bytes_length (P.ecdh a k) info) in
      let range = P.hkdf_bytes_range (P.ecdh a k) info in
      let (number, e, l, _) = safety_number_lem bytes bytes range range long long refl in
      (
        record {
          session_key = P.hkdf_key (P.ecdh a k) (String.◌++◌ "nodetalk-whisper-v1-aes-" session_id);
          safety_number = number;
          fingerprint_hex = hex_of (first_bytes 16 bytes);
          fingerprint_bytes = bytes;
        },
        rw e,
        l,
      )
