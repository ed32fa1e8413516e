-- ===== src/Whisper/Crypto/Handshake.antt =====
-- Both sides of a key exchange, and of an encrypted payload.
use Prim.Native.Char.{code}
use Prim.Native.Nat.{compare as compare_ℕ, Ordering}
use Prim.Native.String.{compare, then}
use Prim.Native.String.compare
use text.Mathlib.TextEquality.{path_by_compare}
use mathlib.Core.Path.{ap₂}
use nodetalk.Whisper.Crypto.SafetyNumber.{derive_whisper_secrets_total}
use nodetalk.Prelude.{ℕ, ◌≡◌, refl, sym, ap, ◌∙◌, String, some, arith, length}
use nodetalk.Whisper.Platform.{Platform, Payload, HasContent}
use nodetalk.Whisper.Crypto.{
  Secrets, sorted_users, derive_whisper_secrets, whisper_encrypt_payload, whisper_decrypt_payload,
}

abbrev flip : Ordering → Ordering
flip Ordering.lt = Ordering.gt
flip Ordering.eq = Ordering.eq
flip Ordering.gt = Ordering.lt

compare_ℕ_flip : (m n : ℕ) → compare_ℕ n m ≡ flip (compare_ℕ m n)
compare_ℕ_flip m n = ground arith

then-flip : (o r : Ordering) → then (flip o) (flip r) ≡ flip (then o r)
then-flip Ordering.lt r = refl
then-flip Ordering.eq r = refl
then-flip Ordering.gt r = refl

compare-flip : (s t : String) → compare t s ≡ flip (compare s t)
compare-flip String.[] String.[] = refl
compare-flip String.[] (String.◌∷◌ d t) =
    compare.cons-nil d t ∙ sym (ap flip (compare.nil-cons d t))
compare-flip (String.◌∷◌ c s) String.[] =
    compare.nil-cons c s ∙ sym (ap flip (compare.cons-nil c s))
compare-flip (String.◌∷◌ c s) (String.◌∷◌ d t) =
    compare.cons-cons d c t s
    ∙ rw (compare_ℕ_flip (code c) (code d), compare-flip s t)
        (then-flip (compare_ℕ (code c) (code d)) (compare s t)
          ∙ sym (ap flip (compare.cons-cons c d s t)))

sorted_users_comm : (a b : String) → sorted_users a b ≡ sorted_users b a
unfolding sorted_users
sorted_users_comm a b = by_order (compare a b) refl
  where
    by_order : (o : Ordering) → compare a b ≡ o → sorted_users a b ≡ sorted_users b a
    by_order Ordering.lt e =
        let f : compare b a ≡ Ordering.gt = compare-flip a b ∙ ap flip e in rw (e, f, sorted_users)
    by_order Ordering.eq e = let f : a ≡ b = path_by_compare a b e in ap₂ sorted_users f (sym f)
    by_order Ordering.gt e =
        let f : compare b a ≡ Ordering.lt = compare-flip a b ∙ ap flip e in rw (e, f, sorted_users)

module _ (P : Platform) where
  derive_whisper_secrets_agree :
      (a b : P.PrivateKey) (session_id user_a user_b : String)
      → derive_whisper_secrets P a (P.public_of b) session_id user_a user_b
        ≡ derive_whisper_secrets P b (P.public_of a) session_id user_b user_a
  unfolding derive_whisper_secrets
  derive_whisper_secrets_agree a b session_id user_a user_b =
      rw (P.ecdh_comm a b, sorted_users_comm user_a user_b)

  -- The key exchange succeeds on both sides with the same result: each with the own private key, the
  -- other's public key and the two user ids in the own order, both derive the same session key,
  -- fingerprint and safety number, and the safety number has 71 characters.
  pub key_exchange :
      (a b : P.PrivateKey) (session_id user_a user_b : String)
      → (r : Secrets P) × (derive_whisper_secrets P a (P.public_of b) session_id user_a user_b
          ≡ some r)
        × (derive_whisper_secrets P b (P.public_of a) session_id user_b user_a ≡ some r)
        × (length r.safety_number ≡ 71)
  key_exchange a b session_id user_a user_b =
      let (r, e, l) = derive_whisper_secrets_total P a (P.public_of b) session_id user_a user_b in
      (r, e, sym (derive_whisper_secrets_agree a b session_id user_a user_b) ∙ e, l)

  -- A payload with a text or a file that was encrypted with a session key and any nonce is what
  -- decryption with the same key and nonce gives back.
  pub decrypt-encrypt_payload :
      (key : P.Key) (nonce : P.Blob) (p : Payload)
      → HasContent p
      → whisper_decrypt_payload P key (whisper_encrypt_payload P key nonce p) nonce ≡ some p
  unfolding whisper_decrypt_payload whisper_encrypt_payload
  decrypt-encrypt_payload key nonce p h =
      rw (P.decrypt-encrypt key nonce (P.stringify p), P.parse-stringify p h)
