-- ===== src/Files/Tests.antt =====
-- The theorems on files with a codec that marks compressed bytes and seals nothing.
use text.Mathlib.Text.{starts_with}
use nodetalk.Prelude.{
  ◌+◌, ◌*◌, ◌≤◌, ◌<◌, ◌≡◌, ◌⊎◌, refl, sym, Bool, false, [], ◌∷◌, Option, none, some, arith, min,
  max, length, nat_beq, if◌then◌else◌,
}
use nodetalk.Files.{
  Bytes, Codec, File, Given, Processed, fit_image, fit_thumbnail, compress_image_file,
  encrypt_and_compress_file, decrypt_and_decompress_file,
}
use nodetalk.Files.Scaling.{fit_image_lem}
use nodetalk.Files.RoundTrip.{decrypt-encrypt_file}

-- Compressed bytes begin with 40.
abbrev unmark : Bytes → Option Bytes
unmark [] = none
unmark (mark ∷ bytes) = if nat_beq mark 40 then some bytes else none

same_bytes : (key nonce bytes sealed : Bytes) → some bytes ≡ some sealed → some sealed ≡ some bytes
same_bytes key nonce bytes sealed h = sym h

abbrev codec : Codec
codec = record {
  compress = λ bytes. 40 ∷ bytes;
  decompress = unmark;
  encrypt = λ key nonce bytes. some bytes;
  decrypt = λ key nonce bytes. some bytes;
  decompress-compress = λ bytes. refl;
  decrypt-encrypt = same_bytes;
}

abbrev photo : File
photo = record { name = "a.b.png"; mime = "image/png"; bytes = 1 ∷ 2 ∷ 3 ∷ [] }

abbrev song : File
song = record { name = "song"; mime = "audio/ogg"; bytes = 7 ∷ 7 ∷ [] }

abbrev given : Given
given = record {
  drawn = some (9 ∷ []);
  image_thumbnail = some (5 ∷ []);
  video_thumbnail = none;
  channel_data = none;
  nonce = 0 ∷ [];
  thumbnail_nonce = 1 ∷ [];
}

photo_renamed : (compress_image_file (some (9 ∷ [])) photo).name ≡ "a.b.webp"
unfolding compress_image_file
photo_renamed = refl

fit_image_lem_example :
    ((fit_image 1920 4000 1001).0 ≤ min 1920 4000)
    × ((fit_image 1920 4000 1001).1 ≤ min 1920 1001)
    × (2 * ((fit_image 1920 4000 1001).0 * 1001)
        ≤ 2 * ((fit_image 1920 4000 1001).1 * 4000) + max 4000 1001)
    × (2 * ((fit_image 1920 4000 1001).1 * 4000)
        ≤ 2 * ((fit_image 1920 4000 1001).0 * 1001) + max 4000 1001)
    × (0 < (fit_thumbnail 1920 1920 4000 1001).0)
    × ((fit_thumbnail 1920 1920 4000 1001).0 ≤ 1920)
    × (0 < (fit_thumbnail 1920 1920 4000 1001).1)
    × ((fit_thumbnail 1920 1920 4000 1001).1 ≤ 1920)
fit_image_lem_example = fit_image_lem 1920 4000 1001 (omega arith) (omega arith) (omega arith)

decrypt-encrypt_file_example :
    (r : Processed) × (encrypt_and_compress_file codec given photo (8 ∷ []) false ≡ some r)
    × (decrypt_and_decompress_file codec r.ciphertext r.nonce
          (8 ∷ [])
          (starts_with r.mime_type "audio/")
        ≡ some r.raw_bytes)
    × (r.original_size ≡ length r.raw_bytes)
    × (length r.raw_bytes ≤ 3)
    × ((◌≡◌ {A = Bool} false false) ⊎ (r.raw_bytes ≡ photo.bytes))
decrypt-encrypt_file_example =
    decrypt-encrypt_file codec given photo (8 ∷ []) false (λ nonce bytes. (bytes, refl))

abbrev sent : Processed
sent = record {
  ciphertext = 7 ∷ 7 ∷ [];
  nonce = 0 ∷ [];
  thumbnail_cipher = none;
  thumbnail_nonce = none;
  mime_type = "audio/ogg";
  file_name = "song";
  original_size = 2;
  raw_bytes = 7 ∷ 7 ∷ [];
}
