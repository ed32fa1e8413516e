-- ===== src/Audio/Trim.antt =====
-- `sliceAudioBuffer`: the part of the audio between two times.
pub mod Samples
pub mod Encoded
use nodetalk.Prelude.{
  ℕ, zero, suc, ◌+◌, ◌-◌, ◌*◌, ◌/◌, ◌≤◌, ◌<◌, ◌≡◌, refl, sym, ap, ◌∙◌, List, [], ◌∷◌, ◌++◌, Option,
  none, some, arith, min, max, length, length-append, leb, ltb, All, if◌then◌else◌,
}
use nodetalk.Audio.Read.{get_elem?}
use nodetalk.Audio.{Sample, positive, AudioBuffer, ◌>>=◌}

abbrev pub take {ℓ} : {A : Type ℓ} → ℕ → List A → List A
take zero xs = []
take (suc n) [] = []
take (suc n) (x ∷ xs) = x ∷ take n xs

abbrev pub drop {ℓ} : {A : Type ℓ} → ℕ → List A → List A
drop zero xs = xs
drop (suc n) [] = []
drop (suc n) (x ∷ xs) = drop n xs

abbrev pub silence : ℕ → List Sample
silence zero = []
silence (suc n) = positive 0 ∷ silence n

-- `target.set(source)` is a `RangeError` where the source is longer.
unfoldable pub set_samples : List Sample → List Sample → Option (List Sample)
set_samples target source =
    if leb (length source) (length target)
    then some (source ++ drop (length source) target)
    else none

-- `source.subarray(start, end)`
unfoldable pub subarray : ℕ → ℕ → List Sample → List Sample
subarray start end source = drop start (take end source)

unfoldable pub trim_channels : ℕ → ℕ → ℕ → List (List Sample) → Option (List (List Sample))
unfolding set_samples subarray
trim_channels start end frames [] = some []
trim_channels start end frames (source ∷ channels) = do
  trimmed ← set_samples (silence frames) (subarray start end source)
  rest ← trim_channels start end frames channels
  some (trimmed ∷ rest)

abbrev pub offset_of : ℕ → ℕ → ℕ
offset_of time sample_rate = time * sample_rate / 1000

abbrev pub end_of : AudioBuffer → ℕ → ℕ
end_of buffer end_time = min buffer.length (offset_of end_time buffer.sample_rate)

unfoldable pub slice_audio_buffer : AudioBuffer → ℕ → ℕ → Option AudioBuffer
unfolding trim_channels
slice_audio_buffer buffer start_time end_time = do
  let start = offset_of start_time buffer.sample_rate
  let end = end_of buffer end_time
  let frame_count = max 1 (end - start)
  channels ← trim_channels start end frame_count buffer.channels
  some (record { sample_rate = buffer.sample_rate; length = frame_count; channels = channels })
