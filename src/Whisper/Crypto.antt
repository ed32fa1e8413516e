-- ===== src/Whisper/Crypto.antt =====
-- client-web/src/lib/whisperCrypto.ts: the secrets of a session, and the encryption of a payload.
pub mod Handshake
pub mod SafetyNumber
use Prim.Native.Nat.{compare as compare_ℕ, Ordering}
use Prim.Native.String
use Prim.Native.String.{compare}
use nodetalk.Prelude.{
  ℕ, zero, suc, ◌+◌, ◌*◌, ◌/◌, ◌%◌, String, Bool, true, false, List, [], ◌∷◌, ◌++◌, Option, none,
  some, if◌then◌else◌,
}
use nodetalk.Whisper.Platform.{
  Platform, Bytes, Payload, Attachment, Parsed, an_object, another_value, syntax_error,
}

infixl 5 ◌>>=◌
abbrev pub ◌>>=◌ {ℓ κ} : {A : Type ℓ} {B : Type κ} → Option A → (A → Option B) → Option B
none >>= k = none
some a >>= k = k a

-- `DataView.getUint16(i, false)`; past the end it throws.
pub get_uint16 : Bytes → ℕ → Option ℕ
get_uint16 [] i = none
get_uint16 (hi ∷ []) i = none
get_uint16 (hi ∷ lo ∷ rest) zero = some (hi * 256 + lo)
get_uint16 (hi ∷ lo ∷ rest) (suc i) = get_uint16 (lo ∷ rest) i

-- `val.toString().padStart(5, '0')` for a number below 100000, as character codes.
pub pad5 : ℕ → List ℕ
pad5 v =
    (48 + v / 10_000 % 10)
    ∷ (48 + v / 1000 % 10)
    ∷ (48 + v / 100 % 10)
    ∷ (48 + v / 10 % 10)
    ∷ (48 + v % 10)
    ∷ []

-- The loop of `formatSafetyNumber`: so many groups are left, the next is group `i`.
groups_from : ℕ → ℕ → Bytes → Option (List (List ℕ))
unfolding get_uint16 pad5
groups_from zero i bytes = some []
groups_from (suc n) i bytes = do
  v ← get_uint16 bytes (i * 2)
  rest ← groups_from n (suc i) bytes
  some (pad5 (v % 100_000) ∷ rest)

-- `groups.join(' ')`
pub join_groups : List (List ℕ) → List ℕ
join_groups [] = []
join_groups (g ∷ []) = g
join_groups (g ∷ h ∷ gs) = g ++ 32 ∷ join_groups (h ∷ gs)

pub format_safety_number : Bytes → Option (List ℕ)
unfolding groups_from join_groups
format_safety_number bytes = do groups ← groups_from 12 0 bytes; some (join_groups groups)

-- `b.toString(16).padStart(2, '0')` in upper case, for a byte
hex_digit : ℕ → ℕ
hex_digit d = elim (compare_ℕ d 10) [ Ordering.lt ↦ 48 + d | _ ↦ 55 + d ]

pub hex_of : Bytes → List ℕ
unfolding hex_digit
hex_of [] = []
hex_of (b ∷ bytes) = hex_digit (b / 16) ∷ hex_digit (b % 16) ∷ hex_of bytes

pub first_bytes : ℕ → Bytes → Bytes
first_bytes zero bytes = []
first_bytes (suc n) [] = []
first_bytes (suc n) (b ∷ bytes) = b ∷ first_bytes n bytes

-- `[userA, userB].sort().join(':')`
pub sorted_users : String → String → String
sorted_users a b = elim (compare a b) [
  | Ordering.gt ↦ String.◌++◌ b (String.◌++◌ ":" a)
  | _ ↦ String.◌++◌ a (String.◌++◌ ":" b)
]

module _ (P : Platform) where
  pub record Secrets : Type 0 where
    pub session_key : P.Key
    pub safety_number : List ℕ
    pub fingerprint_hex : List ℕ
    pub fingerprint_bytes : Bytes

  -- `none`: an exception.
  pub derive_whisper_secrets :
      P.PrivateKey → P.PublicKey → String → String → String → Option Secrets
  unfolding format_safety_number hex_of first_bytes sorted_users
  derive_whisper_secrets local_private remote_public session_id user_a user_b = do
    let shared = P.ecdh local_private remote_public
    let fingerprint =
        P.hkdf_bytes shared
          (String.◌++◌ "nodetalk-whisper-v1-safety-number-" (sorted_users user_a user_b))
    number ← format_safety_number fingerprint
    some (record {
      session_key = P.hkdf_key shared (String.◌++◌ "nodetalk-whisper-v1-aes-" session_id);
      safety_number = number;
      fingerprint_hex = hex_of (first_bytes 16 fingerprint);
      fingerprint_bytes = fingerprint;
    })

  -- With the random nonce as an argument.
  pub whisper_encrypt_payload : P.Key → P.Blob → Payload → P.Blob
  whisper_encrypt_payload key nonce payload = P.encrypt key nonce (P.stringify payload)

  abbrev text_only : String → Payload
  text_only t = record { text = some t; attachment = none }

  pub whisper_decrypt_payload : P.Key → P.Blob → P.Blob → Option Payload
  whisper_decrypt_payload key ciphertext nonce = do
    decoded ← P.decrypt key nonce ciphertext
    elim (P.parse decoded) [
      | an_object p ↦ some p
      | another_value ↦ some (text_only (P.string_of decoded))
      | syntax_error ↦ some (text_only (P.string_of decoded))
    ]
