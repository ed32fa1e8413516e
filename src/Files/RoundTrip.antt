-- ===== src/Files/RoundTrip.antt =====
-- A file that is sent and comes back.
use text.Mathlib.Text.{starts_with}
use nodetalk.Prelude.{
  ◌≤◌, ◌≡◌, ◌⊎◌, refl, sym, ap, ◌∙◌, Bool, true, false, Option, none, some, arith, length,
  if◌then◌else◌, inl, inr, Bool-cases,
}
use nodetalk.Audio.{◌>>=◌}
use nodetalk.Files.{
  Bytes, Codec, File, Given, Processed, compress_image_file, with_extra, processed_data,
  encrypt_and_compress_file, decrypt_and_decompress_file,
}

-- A picture is replaced by a smaller one only.
compress_image_file-le :
    (drawn : Option Bytes) (file : File)
    → length (compress_image_file drawn file).bytes ≤ length file.bytes
unfolding compress_image_file
compress_image_file-le none file = ground arith
compress_image_file-le (some blob) file = ground arith

>>=-eq-some {ℓ κ} :
    {A : Type ℓ} {B : Type κ} (m : Option A) (f : A → Option B) {b : B}
    → (m >>= f) ≡ some b
    → (a : A) × (m ≡ some a) × (f a ≡ some b)
>>=-eq-some none f h = cc
>>=-eq-some (some a) f h = (a, refl, h)

module _ (codec : Codec) where
  with_extra_keeps :
      (key : Bytes) (given : Given) (extra : Option Bytes) (result r : Processed)
      → with_extra codec key given extra result ≡ some r
      → (r.ciphertext ≡ result.ciphertext)
        × (r.nonce ≡ result.nonce)
        × (r.mime_type ≡ result.mime_type)
        × (r.raw_bytes ≡ result.raw_bytes)
        × (r.original_size ≡ result.original_size)
  unfolding with_extra
  with_extra_keeps key given none result r h = ground (arith)
  with_extra_keeps key given (some extra) result r h = ground (arith)

  decrypt-processed :
      (key nonce c : Bytes) (file : File)
      → codec.encrypt key nonce (processed_data codec file) ≡ some c
      → decrypt_and_decompress_file codec c nonce key (starts_with file.mime "audio/")
        ≡ some file.bytes
  unfolding decrypt_and_decompress_file
  decrypt-processed key nonce c file h = elim (Bool-cases (starts_with file.mime "audio/")) [
    | inl e ↦
        let sealed : codec.encrypt key nonce file.bytes ≡ some c = rw e at h in
        rw (e, codec.decrypt-encrypt key nonce file.bytes c sealed) refl
    | inr e ↦
        let sealed : codec.encrypt key nonce (codec.compress file.bytes) ≡ some c = rw e at h in
        rw (e, codec.decrypt-encrypt key nonce (codec.compress file.bytes) c sealed)
          (codec.decompress-compress file.bytes)
  ]

  abbrev effective : Given → File → Bool → File
  effective given file as_document =
      if as_document then file else compress_image_file given.drawn file

  abbrev Sent : Bytes → File → Processed → Type 0
  Sent key eff r =
      (codec.encrypt key r.nonce (processed_data codec eff) ≡ some r.ciphertext)
      × (r.mime_type ≡ eff.mime)
      × (r.raw_bytes ≡ eff.bytes)
      × (r.original_size ≡ length eff.bytes)

  encrypted-Sent :
      (given : Given) (file : File) (key : Bytes) (as_document : Bool) (r : Processed)
      → encrypt_and_compress_file codec given file key as_document ≡ some r
      → Sent key (effective given file as_document) r
  unfolding encrypt_and_compress_file
  encrypted-Sent given file key as_document r h =
      let (c, e, k) =
        >>=-eq-some
          (codec.encrypt key given.nonce (processed_data codec (effective given file as_document)))
          _ h in
      let keeps = with_extra_keeps key given _ _ r k in
      (cc (keeps.0, keeps.1, e), keeps.2, keeps.3, keeps.4)

  abbrev Works : Bytes → Type 0
  Works key = (nonce bytes : Bytes) → (c : Bytes) × (codec.encrypt key nonce bytes ≡ some c)

  with_extra_total :
      (key : Bytes) (given : Given) (extra : Option Bytes) (result : Processed)
      → Works key
      → (r : Processed) × (with_extra codec key given extra result ≡ some r)
  unfolding with_extra
  with_extra_total key given none result works = (result, refl)
  with_extra_total key given (some extra) result works =
      let (c, e) = works given.thumbnail_nonce extra in
      (
        record result { thumbnail_cipher = some c; thumbnail_nonce = some given.thumbnail_nonce },
        rw e refl,
      )

  encrypt_total :
      (given : Given) (file : File) (key : Bytes) (as_document : Bool)
      → Works key
      → (r : Processed) × (encrypt_and_compress_file codec given file key as_document ≡ some r)
  unfolding encrypt_and_compress_file
  encrypt_total given file key as_document works =
      let (c, e) = works given.nonce (processed_data codec (effective given file as_document)) in
      rw e (with_extra_total key given _ _ works)

  effective-le :
      (given : Given) (file : File) (as_document : Bool)
      → length (effective given file as_document).bytes ≤ length file.bytes
  effective-le given file true = omega arith
  effective-le given file false = compress_image_file-le given.drawn file

  document :
      (given : Given) (file : File) (as_document : Bool) (r : Processed)
      → r.raw_bytes ≡ (effective given file as_document).bytes
      → (as_document ≡ false) ⊎ (r.raw_bytes ≡ file.bytes)
  document given file true r h = inr h
  document given file false r h = inl refl

  -- A file that is sent, where encryption with this key works: it is prepared, and whoever has the key
  -- reads the same bytes from it, if it is read as audio just when its type is audio. These bytes are
  -- at most as many as the file has, and its own where it is sent as a document.
  pub decrypt-encrypt_file :
      (given : Given) (file : File) (key : Bytes) (as_document : Bool)
      → ((nonce bytes : Bytes) → (c : Bytes) × (codec.encrypt key nonce bytes ≡ some c))
      → (r : Processed) × (encrypt_and_compress_file codec given file key as_document ≡ some r)
        × (decrypt_and_decompress_file codec r.ciphertext r.nonce key
              (starts_with r.mime_type "audio/")
            ≡ some r.raw_bytes)
        × (r.original_size ≡ length r.raw_bytes)
        × (length r.raw_bytes ≤ length file.bytes)
        × ((as_document ≡ false) ⊎ (r.raw_bytes ≡ file.bytes))
  decrypt-encrypt_file given file key as_document works =
      let eff = effective given file as_document in
      let (r, e) = encrypt_total given file key as_document works in
      let (sealed, mime, raw, size) = encrypted-Sent given file key as_document r e in
      (
        r,
        e,
        rw (mime, raw) (decrypt-processed key r.nonce r.ciphertext eff sealed),
        size ∙ ap length (sym raw),
        rw raw (effective-le given file as_document),
        document given file as_document r raw,
      )

  -- A file of audio whose bytes Zstandard does not accept cannot be read unless it is read as audio.
  pub audio_unreadable :
      (given : Given) (file : File) (key : Bytes) (as_document : Bool) (r : Processed)
      → encrypt_and_compress_file codec given file key as_document ≡ some r
      → starts_with r.mime_type "audio/" ≡ true
      → codec.decompress r.raw_bytes ≡ none
      → decrypt_and_decompress_file codec r.ciphertext r.nonce key false ≡ none
  unfolding decrypt_and_decompress_file
  audio_unreadable given file key as_document r h a n =
      let eff = effective given file as_document in
      let (sealed, mime, raw, _) = encrypted-Sent given file key as_document r h in
      let audio : starts_with eff.mime "audio/" ≡ true = rw (← mime) a in
      let plain : codec.encrypt key r.nonce eff.bytes ≡ some r.ciphertext = rw audio at sealed in
      rw (codec.decrypt-encrypt key r.nonce eff.bytes r.ciphertext plain) (rw (← raw) n)
