-- ===== src/Audio/Trim/Encoded.antt =====
-- The WAV file of trimmed audio, as a reader finds it.
use nodetalk.Prelude.{
  ℕ, zero, suc, ◌+◌, ◌-◌, ◌*◌, ◌%◌, ◌^◌, ◌<◌, ◌≡◌, refl, sym, ap, ◌∙◌, List, [], ◌∷◌, Option, none,
  some, arith, or_default, max, length, ltb, All, if◌then◌else◌,
}
use nodetalk.Audio.{Sample, positive, AudioBuffer, to_int16, sample_at}
use nodetalk.Audio.Bytes.{flat}
use nodetalk.Audio.Wav.{wav_parts, wav_of_parts}
use nodetalk.Audio.Read.{get_elem?, get_uint16, get_uint32, wav_lem}
use nodetalk.Audio.Trim.{offset_of, end_of, slice_audio_buffer}
use nodetalk.Audio.Trim.Samples.{slice_audio_buffer_lem}

-- The 16 bits of a sample, and of silence where there is none.
abbrev pub bits_of : Option Sample → ℕ
bits_of none = 0
bits_of (some s) = to_int16 s

sample_at_lem :
    (i : ℕ) (samples : List Sample) → sample_at i samples ≡ bits_of (get_elem? samples i)
unfolding sample_at
sample_at_lem i [] = refl
sample_at_lem zero (s ∷ samples) = refl
sample_at_lem (suc i) (s ∷ samples) = sample_at_lem i samples

pub encoded_slice :
    (b : AudioBuffer) (start_time end_time c k : ℕ) (source : List Sample)
    → All (λ s. length s ≡ b.length) b.channels
    → get_elem? b.channels c ≡ some source
    → k < max 1 (end_of b end_time - offset_of start_time b.sample_rate)
    → let a = offset_of start_time b.sample_rate in
      let z = end_of b end_time in
      let n = length b.channels in
      (t : AudioBuffer) × (slice_audio_buffer b start_time end_time ≡ some t)
      × (t.sample_rate ≡ b.sample_rate)
      × (t.length ≡ max 1 (z - a))
      × (length (flat (wav_parts t)) ≡ 44 + max 1 (z - a) * (n * 2))
      × (get_uint32 24 (flat (wav_parts t)) ≡ b.sample_rate % 2 ^ 32)
      × (get_uint16 (44 + 2 * (k * n + c)) (flat (wav_parts t))
          ≡ bits_of (if ltb (a + k) z then get_elem? source (a + k) else some (positive 0)))
encoded_slice b start_time end_time c k source h g l =
    let (t, target, e, rate, count, long, at, _, sample) =
      slice_audio_buffer_lem b start_time end_time c k source h g l in
    let inside : k < t.length = omega (arith, long) in
    let (file, w, size, _, _, read_rate, _, read) = wav_lem t k c target inside at in
    let same : file ≡ flat (wav_parts t) = ap (λ o. or_default o []) (sym w ∙ wav_of_parts t) in
    (
      t,
      e,
      rate,
      long,
      ap length (sym same)
          ∙ size
          ∙ ap (λ n. 44 + n * (length t.channels * 2)) long
          ∙ ap (λ n. 44 + max 1 (end_of b end_time - offset_of start_time b.sample_rate) * (n * 2))
              count,
      ap (get_uint32 24) (sym same) ∙ read_rate ∙ ap (λ n. n % 2 ^ 32) rate,
      ap (λ n. get_uint16 (44 + 2 * (k * n + c)) (flat (wav_parts t))) (sym count)
          ∙ ap (get_uint16 (44 + 2 * (k * length t.channels + c))) (sym same)
          ∙ read
          ∙ sample_at_lem k target
          ∙ ap bits_of sample,
    )
