-- ===== src/Audio.antt =====
-- client-web/src/utils/audio.ts, and the encoder of client-web/src/lib/voicePlayer.ts: WAV files from
-- decoded audio, waveforms and trimming. A sample counts 2 ^ 24ths of full scale: a Float32 from half of
-- full scale on is such a number exactly, and a smaller one is taken as rounded to one. Times count
-- milliseconds.
pub mod Bytes
pub mod Wav
pub mod Read
pub mod Waveform
pub mod Trim
mod Tests
use nodetalk.Prelude.{
  ℕ, zero, suc, ◌+◌, ◌-◌, ◌*◌, ◌/◌, ◌%◌, ◌^◌, min, max, List, [], ◌∷◌, ◌++◌, Option, none, some,
  String, Bool, length, ltb, if◌then◌else◌,
}
use Prim.Native.String
use Prim.Native.Char.{code}

pub data Sample : Type 0 where
  positive negative : ℕ → Sample

-- `AudioBuffer`: each channel has `length` samples.
pub record AudioBuffer : Type 0 where
  pub sample_rate : ℕ
  pub length : ℕ
  pub channels : List (List Sample)

abbrev pub full_scale : ℕ
full_scale = 2 ^ 24

abbrev pub magnitude : Sample → ℕ
magnitude (positive n) = n
magnitude (negative n) = n

-- `Math.max(-1, Math.min(1, s))`, times 0x7fff or 0x8000, as `setInt16` keeps it: two's complement.
unfoldable pub to_int16 : Sample → ℕ
to_int16 (positive n) = min full_scale n * 0x7fff / full_scale
to_int16 (negative n) = (65536 - min full_scale n * 0x8000 / full_scale) % 65536

abbrev pub on_rest : ℕ → Option (List ℕ) → Option (List ℕ)
on_rest a none = none
on_rest a (some rest) = some (a ∷ rest)

-- A `Uint8Array` is a list of bytes; a write past its end is a `RangeError`.
unfoldable pub set_bytes : ℕ → List ℕ → List ℕ → Option (List ℕ)
set_bytes zero [] view = some view
set_bytes zero (b ∷ bytes) [] = none
set_bytes zero (b ∷ bytes) (_ ∷ view) = on_rest b (set_bytes zero bytes view)
set_bytes (suc offset) bytes [] = none
set_bytes (suc offset) bytes (a ∷ view) = on_rest a (set_bytes offset bytes view)

abbrev pub zeros : ℕ → List ℕ
zeros zero = []
zeros (suc n) = 0 ∷ zeros n

-- Little endian.
abbrev pub uint16_bytes : ℕ → List ℕ
uint16_bytes n = n % 256 ∷ n / 256 % 256 ∷ []

abbrev pub uint32_bytes : ℕ → List ℕ
uint32_bytes n = n % 256 ∷ n / 256 % 256 ∷ n / 65536 % 256 ∷ n / 16777216 % 256 ∷ []

abbrev pub char_codes : String → List ℕ
char_codes String.[] = []
char_codes (String.◌∷◌ c text) = code c ∷ char_codes text

infixl 5 ◌>>=◌
abbrev pub ◌>>=◌ {ℓ κ} : {A : Type ℓ} {B : Type κ} → Option A → (A → Option B) → Option B
none >>= f = none
some a >>= f = f a

-- The samples of one frame, two bytes each; a channel that is too short gives NaN, which is kept as 0.
unfoldable pub sample_at : ℕ → List Sample → ℕ
unfolding to_int16
sample_at i [] = 0
sample_at zero (s ∷ samples) = to_int16 s
sample_at (suc i) (s ∷ samples) = sample_at i samples

unfoldable pub write_frame : ℕ → ℕ → List (List Sample) → List ℕ → Option (List ℕ)
unfolding set_bytes sample_at
write_frame offset i [] view = some view
write_frame offset i (channel ∷ channels) view = do
  view' ← set_bytes offset (uint16_bytes (sample_at i channel)) view
  write_frame (offset + 2) i channels view'

-- `frames` are left, `i` is the next one.
unfoldable pub write_frames : ℕ → ℕ → ℕ → List (List Sample) → List ℕ → Option (List ℕ)
unfolding write_frame
write_frames zero offset i channels view = some view
write_frames (suc frames) offset i channels view = do
  view' ← write_frame offset i channels view
  write_frames frames (offset + 2 * length channels) (i + 1) channels view'

abbrev pub block_align : AudioBuffer → ℕ
block_align buffer = length buffer.channels * (16 / 8)

abbrev pub data_size : AudioBuffer → ℕ
data_size buffer = buffer.length * block_align buffer

unfoldable pub write_header : AudioBuffer → List ℕ → Option (List ℕ)
unfolding set_bytes
write_header buffer v = do
  v ← set_bytes 0 (char_codes "RIFF") v
  v ← set_bytes 4 (uint32_bytes (36 + data_size buffer)) v
  v ← set_bytes 8 (char_codes "WAVE") v
  v ← set_bytes 12 (char_codes "fmt ") v
  v ← set_bytes 16 (uint32_bytes 16) v
  v ← set_bytes 20 (uint16_bytes 1) v
  v ← set_bytes 22 (uint16_bytes (length buffer.channels)) v
  v ← set_bytes 24 (uint32_bytes buffer.sample_rate) v
  v ← set_bytes 28 (uint32_bytes (buffer.sample_rate * block_align buffer)) v
  v ← set_bytes 32 (uint16_bytes (block_align buffer)) v
  v ← set_bytes 34 (uint16_bytes 16) v
  v ← set_bytes 36 (char_codes "data") v
  v ← set_bytes 40 (uint32_bytes (data_size buffer)) v
  some v

unfoldable pub audio_buffer_to_wav : AudioBuffer → Option (List ℕ)
unfolding write_header write_frames
audio_buffer_to_wav buffer = do
  v ← write_header buffer (zeros (44 + data_size buffer))
  write_frames buffer.length 44 0 buffer.channels v

-- The encoder of lib/voicePlayer.ts, with its own header and conversion; it writes the samples at
-- `offset + index`.
unfoldable pub player_header : AudioBuffer → List ℕ → Option (List ℕ)
unfolding set_bytes
player_header buffer v =
    let num_channels = length buffer.channels in
    let format : ℕ = 1 in
    let bit_depth : ℕ = 16 in
    let bytes_per_sample = bit_depth / 8 in
    let align = num_channels * bytes_per_sample in
    let buffer_length = buffer.length * align in
    do
      v ← set_bytes 0 (char_codes "RIFF") v
      v ← set_bytes 4 (uint32_bytes (36 + buffer_length)) v
      v ← set_bytes 8 (char_codes "WAVE") v
      v ← set_bytes 12 (char_codes "fmt ") v
      v ← set_bytes 16 (uint32_bytes 16) v
      v ← set_bytes 20 (uint16_bytes format) v
      v ← set_bytes 22 (uint16_bytes num_channels) v
      v ← set_bytes 24 (uint32_bytes buffer.sample_rate) v
      v ← set_bytes 28 (uint32_bytes (buffer.sample_rate * align)) v
      v ← set_bytes 32 (uint16_bytes align) v
      v ← set_bytes 34 (uint16_bytes bit_depth) v
      v ← set_bytes 36 (char_codes "data") v
      v ← set_bytes 40 (uint32_bytes buffer_length) v
      some v

-- Clamped, and then scaled by the sign; `setInt16` drops the fraction and keeps two's complement.
unfoldable pub clamp : Sample → Sample
clamp (positive n) = if ltb full_scale n then positive full_scale else positive n
clamp (negative n) = if ltb full_scale n then negative full_scale else negative n

unfoldable pub pcm16 : Sample → ℕ
pcm16 (positive n) = n * 0x7fff / full_scale
pcm16 (negative n) = (0x10000 - n * 0x8000 / full_scale) % 0x10000

unfoldable pub pcm_at : ℕ → List Sample → ℕ
unfolding clamp pcm16
pcm_at i [] = 0
pcm_at zero (s ∷ samples) = pcm16 (clamp s)
pcm_at (suc i) (s ∷ samples) = pcm_at i samples

unfoldable pub write_channels : ℕ → ℕ → List (List Sample) → List ℕ → Option (List ℕ)
unfolding set_bytes pcm_at
write_channels index i [] view = some view
write_channels index i (channel ∷ channels) view = do
  view' ← set_bytes (44 + index) (uint16_bytes (pcm_at i channel)) view
  write_channels (index + 2) i channels view'

unfoldable pub write_interleaved : ℕ → ℕ → ℕ → List (List Sample) → List ℕ → Option (List ℕ)
unfolding write_channels
write_interleaved zero index i channels view = some view
write_interleaved (suc frames) index i channels view = do
  view' ← write_channels index i channels view
  write_interleaved frames (index + 2 * length channels) (i + 1) channels view'

unfoldable pub player_wav : AudioBuffer → Option (List ℕ)
unfolding player_header write_interleaved
player_wav buffer = do
  v ← player_header buffer (zeros (44 + buffer.length * (length buffer.channels * (16 / 8))))
  write_interleaved buffer.length 0 0 buffer.channels v
