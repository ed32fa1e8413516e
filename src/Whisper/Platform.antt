-- ===== src/Whisper/Platform.antt =====
-- What the browser gives: Web Crypto's ECDH, HKDF and AES-GCM, base64, and JSON text. The laws are
-- those that the standards document.
use nodetalk.Prelude.{ℕ, String, ◌≡◌, List, Option, none, some, ◌<◌, length, All}

abbrev pub Bytes : Type 0
Bytes = List ℕ

pub data FileKind : Type 0 where
  plain voice video : FileKind

-- `WhisperFileAttachment` of lib/whisperCrypto.ts
pub record Attachment : Type 0 where
  pub name : String
  pub mime : String
  pub size : ℕ
  pub data_base64 : String
  pub kind : Option FileKind
  pub duration : Option ℕ
  pub waveform : Option (List ℕ)

-- `WhisperPayloadData`
pub record Payload : Type 0 where
  pub text : Option String
  pub attachment : Option Attachment

-- What `JSON.parse` makes of a text: an object with a `text` or a `file`, another value, or an error.
pub data Parsed : Type 0 where
  an_object : Payload → Parsed
  another_value : Parsed
  syntax_error : Parsed

abbrev pub HasContent : Payload → Type 0
HasContent p = has_content p.text p.attachment
  where
    has_content : Option String → Option Attachment → Type 0
    has_content none none = ⊥
    has_content _ _ = Unit

pub record Platform : Type 1 where
  pub PrivateKey : Type 0
  pub PublicKey : Type 0
  pub Secret : Type 0
  pub Key : Type 0
  -- the bytes of a key, a nonce or a ciphertext, a text that `JSON.stringify` or decryption gives, and
  -- base64 text
  pub Blob : Type 0
  pub Text : Type 0
  pub Base64 : Type 0
  pub string_of : Text → String
  pub public_of : PrivateKey → PublicKey
  -- `deriveBits` with ECDH
  pub ecdh : PrivateKey → PublicKey → Secret
  pub export_key : PublicKey → Blob
  -- `none`: the call throws
  pub import_key : Blob → Option PublicKey
  -- HKDF with the salt of the source, to an AES key and to 32 bytes, by the `info` text
  pub hkdf_key : Secret → String → Key
  pub hkdf_bytes : Secret → String → Bytes
  pub encrypt : Key → Blob → Text → Blob
  pub decrypt : Key → Blob → Blob → Option Text
  pub stringify : Payload → Text
  pub parse : Text → Parsed
  pub btoa : Blob → Base64
  pub atob : Base64 → Option Blob
  pub ecdh_comm : (a b : PrivateKey) → ecdh a (public_of b) ≡ ecdh b (public_of a)
  pub import-export : (k : PublicKey) → import_key (export_key k) ≡ some k
  pub hkdf_bytes_length : (s : Secret) (info : String) → length (hkdf_bytes s info) ≡ 32
  pub hkdf_bytes_range : (s : Secret) (info : String) → All (λ b. b < 256) (hkdf_bytes s info)
  pub decrypt-encrypt :
      (k : Key) (nonce : Blob) (t : Text) → decrypt k nonce (encrypt k nonce t) ≡ some t
  pub parse-stringify : (p : Payload) → HasContent p → parse (stringify p) ≡ an_object p
  pub atob-btoa : (b : Blob) → atob (btoa b) ≡ some b
