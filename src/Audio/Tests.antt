-- ===== src/Audio/Tests.antt =====
-- The theorems on audio at a short recording of two channels.
use nodetalk.Prelude.{
  ℕ, ◌+◌, ◌-◌, ◌*◌, ◌%◌, ◌^◌, ◌≤◌, ◌≡◌, refl, List, [], ◌∷◌, some, arith, length, ltb, map, min,
  max, ◌/◌, ◌<◌, All, if◌then◌else◌,
}
use nodetalk.Audio.{
  Sample, positive, negative, AudioBuffer, audio_buffer_to_wav, player_wav, sample_at, to_int16,
  full_scale, magnitude,
}
use nodetalk.Audio.Read.{get_uint16, get_uint32, get_elem?, wav_lem}
use nodetalk.Audio.Wav.{player_wav_lem}
use nodetalk.Audio.Waveform.{
  largest, segment, extract_waveform_peaks, get_or_zero, extract_waveform_peaks_lem,
}
use nodetalk.Audio.Trim.{offset_of, end_of, slice_audio_buffer}
use nodetalk.Audio.Trim.Samples.{slice_audio_buffer_lem}

abbrev left : List Sample
left = positive 4194304 ∷ negative 8388608 ∷ positive 0 ∷ positive 20000000 ∷ []

abbrev right : List Sample
right = negative 16777216 ∷ positive 16777216 ∷ positive 3 ∷ negative 5 ∷ []

abbrev recording : AudioBuffer
recording = record { sample_rate = 1000; length = 4; channels = left ∷ right ∷ [] }

full_scale_low : to_int16 (negative 16777216) ≡ 32768
unfolding to_int16
full_scale_low = refl

wav_lem_example :
    (file : List ℕ) × (audio_buffer_to_wav recording ≡ some file)
    × (length file ≡ 44 + 4 * (2 * 2))
    × (get_uint32 4 file ≡ (length file - 8) % 2 ^ 32)
    × (get_uint16 22 file ≡ 2 % 2 ^ 16)
    × (get_uint32 24 file ≡ 1000 % 2 ^ 32)
    × (get_uint32 40 file ≡ (4 * (2 * 2)) % 2 ^ 32)
    × (get_uint16 (44 + 2 * (1 * 2 + 0)) file ≡ sample_at 1 left)
wav_lem_example = wav_lem recording 1 0 left (omega arith) refl

player_wav_lem_example : player_wav recording ≡ audio_buffer_to_wav recording
player_wav_lem_example = player_wav_lem recording

extract_waveform_peaks_lem_example :
    let whole = 10 * full_scale in
    let p = min whole (16 * largest (map magnitude (segment 1 (4 / 2) left))) in
    let bar = get_or_zero (extract_waveform_peaks recording 2) 1 in
    (length (extract_waveform_peaks recording 2) ≡ 2)
    × All (λ n. (15 ≤ n) × (n ≤ 100)) (extract_waveform_peaks recording 2)
    × (2 * whole * (bar - 15) ≤ 2 * 85 * p + whole)
    × (2 * 85 * p + whole < 2 * whole * (bar - 15) + 2 * whole)
extract_waveform_peaks_lem_example = extract_waveform_peaks_lem recording 2 1 (omega arith)

slice_audio_buffer_lem_example :
    (t : AudioBuffer) × (target : List Sample) × (slice_audio_buffer recording 1 9 ≡ some t)
    × (t.sample_rate ≡ 1000)
    × (length t.channels ≡ length recording.channels)
    × (t.length ≡ max 1 (end_of recording 9 - offset_of 1 1000))
    × (get_elem? t.channels 0 ≡ some target)
    × (length target ≡ t.length)
    × (get_elem? target 2 ≡ (
        if ltb (offset_of 1 1000 + 2) (end_of recording 9)
        then get_elem? left (offset_of 1 1000 + 2)
        else some (positive 0)))
slice_audio_buffer_lem_example =
    slice_audio_buffer_lem recording 1 9 0 2 left (refl, (refl, tt)) refl (omega arith)
