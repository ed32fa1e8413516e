-- ===== src/Files.antt =====
-- client-web/src/utils/file.ts: what is done to a file before it is sent and after it comes. Bytes are a
-- list of numbers; what the browser makes of an image or a video is an argument, and so are random
-- nonces. Zstandard and AES-GCM are a parameter.
pub mod Scaling
pub mod RoundTrip
mod Tests
use Prim.Native.String
use Prim.Native.String.{[] as empty, ◌∷◌ as ◌∷ˢ◌}
use Prim.Native.Char.{code}
use text.Mathlib.Text.{starts_with, find?}
use nodetalk.Prelude.{
  ℕ, zero, suc, ◌+◌, ◌*◌, ◌/◌, ◌^◌, ◌≡◌, String, Bool, true, false, not, ◌&&◌, ◌||◌, List, [], ◌∷◌,
  Option, none, some, nat_beq, ltb, leb, min, max, ◌==◌, if◌then◌else◌, is_some, length,
}
use nodetalk.Audio.{Sample, ◌>>=◌}
use nodetalk.Audio.Waveform.{peak}

abbrev pub Bytes : Type 0
Bytes = List ℕ

-- `none`: the call throws.
pub record Codec : Type 0 where
  pub compress : Bytes → Bytes
  pub decompress : Bytes → Option Bytes
  -- with a raw key and a nonce
  pub encrypt : Bytes → Bytes → Bytes → Option Bytes
  pub decrypt : Bytes → Bytes → Bytes → Option Bytes
  pub decompress-compress : (bytes : Bytes) → decompress (compress bytes) ≡ some bytes
  pub decrypt-encrypt :
      (key nonce bytes sealed : Bytes)
      → encrypt key nonce bytes ≡ some sealed
      → decrypt key nonce sealed ≡ some bytes

-- `File`
pub record File : Type 0 where
  pub name : String
  pub mime : String
  pub bytes : Bytes

abbrev pub includes : String → String → Bool
includes s t = is_some (find? s t)

-- `[^/.]+$`
unfoldable pub is_extension : String → Bool
is_extension empty = true
is_extension (c ∷ˢ s) = not (nat_beq (code c) 47) && not (nat_beq (code c) 46) && is_extension s

-- `name.replace(/\.[^/.]+$/, '')`
unfoldable pub strip_extension : String → String
unfolding is_extension
strip_extension empty = empty
strip_extension (c ∷ˢ s) =
    if nat_beq (code c) 46 && not (s == "") && is_extension s then empty else c ∷ˢ strip_extension s

-- `Math.round(a * b / c)`
unfoldable pub round_ratio : ℕ → ℕ → ℕ → ℕ
round_ratio a b c = (2 * (a * b) + c) / (2 * c)

-- The canvas of `compressImageFile`.
unfoldable pub fit_image : ℕ → ℕ → ℕ → ℕ × ℕ
unfolding round_ratio
fit_image max_dimension width height =
    if ltb max_dimension width || ltb max_dimension height
    then (if ltb height width
        then (max_dimension, round_ratio height max_dimension width)
        else (round_ratio width max_dimension height, max_dimension))
    else (width, height)

-- The canvas of a thumbnail.
unfoldable pub fit_thumbnail : ℕ → ℕ → ℕ → ℕ → ℕ × ℕ
unfolding round_ratio
fit_thumbnail max_width max_height width height =
    if ltb height width
    then (if ltb max_width width
        then (max_width, max 1 (round_ratio height max_width width))
        else (width, height))
    else (if ltb max_height height
        then (max 1 (round_ratio width max_height height), max_height)
        else (width, height))

unfoldable pub is_kept : String → Bool
is_kept mime =
    not (starts_with mime "image/")
    || mime == "image/gif"
    || includes mime "svg"
    || includes mime "heic"
    || includes mime "heif"

-- `drawn` has the bytes that `toBlob` gives; `none` where the image does not load or is not drawn.
unfoldable pub compress_image_file : Option Bytes → File → File
unfolding is_kept strip_extension
compress_image_file drawn file = if is_kept file.mime then file else elim drawn [
  | none ↦ file
  | some blob ↦ if leb (length file.bytes) (length blob) then file else record {
    name = String.◌++◌ (strip_extension file.name) ".webp";
    mime = "image/webp";
    bytes = blob;
  }
]

-- `Math.min(100, Math.floor(max * 100))` of each segment
unfoldable pub waveform_from : ℕ → ℕ → ℕ → List Sample → Bytes
unfolding peak
waveform_from zero i step samples = []
waveform_from (suc bars) i step samples =
    min 100 (peak step (i * step) samples 0 * 100 / 2 ^ 24)
    ∷ waveform_from bars (i + 1) step samples

unfoldable pub generate_waveform : List Sample → ℕ → Bytes
unfolding waveform_from
generate_waveform channel_data samples =
    waveform_from samples 0 (length channel_data / samples) channel_data

-- The picture, the decoded audio and the nonces that the browser gives.
pub record Given : Type 0 where
  pub drawn : Option Bytes
  pub image_thumbnail : Option Bytes
  pub video_thumbnail : Option Bytes
  pub channel_data : Option (List Sample)
  pub nonce : Bytes
  pub thumbnail_nonce : Bytes

pub record Processed : Type 0 where
  pub ciphertext : Bytes
  pub nonce : Bytes
  pub thumbnail_cipher : Option Bytes
  pub thumbnail_nonce : Option Bytes
  pub mime_type : String
  pub file_name : String
  pub original_size : ℕ
  pub raw_bytes : Bytes

-- What is sent along with a file that is no document; the three kinds exclude one another.
unfoldable pub extra_of : Given → String → Option Bytes
unfolding generate_waveform
extra_of given mime =
    if starts_with mime "image/"
    then (if includes mime "heic" || includes mime "heif" then none else given.image_thumbnail)
    else (if starts_with mime "video/"
        then given.video_thumbnail
        else (if starts_with mime "audio/"
            then (elim given.channel_data [
              | none ↦ none
              | some samples ↦ some (generate_waveform samples 60)
            ])
            else none))

module _ (codec : Codec) where
  unfoldable pub with_extra : Bytes → Given → Option Bytes → Processed → Option Processed
  with_extra key given none result = some result
  with_extra key given (some extra) result = do
    cipher ← codec.encrypt key given.thumbnail_nonce extra
    some (record result {
      thumbnail_cipher = some cipher;
      thumbnail_nonce = some given.thumbnail_nonce;
    })

  abbrev pub processed_data : File → Bytes
  processed_data file =
      if starts_with file.mime "audio/" then file.bytes else codec.compress file.bytes

  unfoldable pub encrypt_and_compress_file : Given → File → Bytes → Bool → Option Processed
  unfolding compress_image_file extra_of with_extra
  encrypt_and_compress_file given file channel_key as_document = do
    let effective = if as_document then file else compress_image_file given.drawn file
    ciphertext ← codec.encrypt channel_key given.nonce (processed_data effective)
    with_extra channel_key given (if as_document then none else extra_of given effective.mime)
        (record {
          ciphertext = ciphertext;
          nonce = given.nonce;
          thumbnail_cipher = none;
          thumbnail_nonce = none;
          mime_type = effective.mime;
          file_name = effective.name;
          original_size = length effective.bytes;
          raw_bytes = effective.bytes;
        })

  unfoldable pub decrypt_and_decompress_file : Bytes → Bytes → Bytes → Bool → Option Bytes
  decrypt_and_decompress_file ciphertext nonce channel_key is_audio = do
    decrypted ← codec.decrypt channel_key nonce ciphertext
    if is_audio then some decrypted else codec.decompress decrypted
