-- ===== src/Audio/Waveform.antt =====
-- `extractWaveformPeaks`: the bars of the waveform that is shown before a voice message is sent.
use nodetalk.Prelude.{
  ℕ, zero, suc, ◌+◌, ◌-◌, ◌*◌, ◌/◌, ◌≤◌, ◌<◌, ◌≡◌, ◌⊎◌, inl, inr, refl, ap, ◌∙◌, List, [], ◌∷◌, map,
  arith, min, max, length, ltb, All, if◌then◌else◌,
}
use nodetalk.Audio.{Sample, AudioBuffer, full_scale, magnitude}
use nodetalk.Audio.Trim.{take, drop}

abbrev pub first_channel : List (List Sample) → List Sample
first_channel [] = []
first_channel (channel ∷ channels) = channel

abbrev pub at_or_zero : ℕ → List Sample → ℕ
at_or_zero j [] = 0
at_or_zero zero (s ∷ samples) = magnitude s
at_or_zero (suc j) (s ∷ samples) = at_or_zero j samples

-- `for (j = start; j < end; j++)`, with `rounds` the rounds that are left.
unfoldable pub peak : ℕ → ℕ → List Sample → ℕ → ℕ
peak zero j samples highest = highest
peak (suc rounds) j samples highest =
    let abs = at_or_zero j samples in
    peak rounds (j + 1) samples (if ltb highest abs then abs else highest)

-- `Math.round(Math.min(1, max * 1.6) * 85) + 15`, in exact fractions.
unfoldable pub scaled : ℕ → ℕ
scaled highest =
    let whole = 10 * full_scale in (2 * 85 * min whole (16 * highest) + whole) / (2 * whole) + 15

unfoldable pub peaks_from : ℕ → ℕ → ℕ → List Sample → List ℕ
unfolding peak scaled
peaks_from zero i step samples = []
peaks_from (suc bars) i step samples =
    let start = i * step in
    let end = min (start + step) (length samples) in
    scaled (peak (end - start) start samples 0) ∷ peaks_from bars (i + 1) step samples

unfoldable pub extract_waveform_peaks : AudioBuffer → ℕ → List ℕ
unfolding peaks_from
extract_waveform_peaks buffer num_peaks =
    let channel_data = first_channel buffer.channels in
    peaks_from num_peaks 0 (length channel_data / num_peaks) channel_data

scaled_bounds : (n : ℕ) → (15 ≤ scaled n) × (scaled n ≤ 100)
unfolding scaled
scaled_bounds n = omega arith

-- The largest of these numbers, and 0 where there is none.
abbrev pub largest : List ℕ → ℕ
largest [] = 0
largest (n ∷ ns) = max n (largest ns)

-- The samples of bar k, where a bar has `step` of them.
abbrev pub segment : ℕ → ℕ → List Sample → List Sample
segment k step samples = take step (drop (k * step) samples)

drop_lem :
    (j : ℕ) (samples : List Sample)
    → ((drop j samples ≡ []) × (at_or_zero j samples ≡ 0))
      ⊎ ((s : Sample) × (drop j samples ≡ s ∷ drop (suc j) samples)
          × (at_or_zero j samples ≡ magnitude s))
drop_lem zero [] = inl (refl, refl)
drop_lem (suc j) [] = inl (refl, refl)
drop_lem zero (s ∷ samples) = inr (s, refl, refl)
drop_lem (suc j) (s ∷ samples) = drop_lem j samples

drop-past : (j : ℕ) (samples : List Sample) → drop j samples ≡ [] → drop (suc j) samples ≡ []
drop-past zero [] h = refl
drop-past (suc j) [] h = refl
drop-past zero (s ∷ samples) h = cc
drop-past (suc j) (s ∷ samples) h = drop-past j samples h

take-nil : (n : ℕ) → take {A = Sample} n [] ≡ []
take-nil zero = refl
take-nil (suc n) = refl

peak_lem :
    (rounds j : ℕ) (samples : List Sample) (highest : ℕ)
    → peak rounds j samples highest
      ≡ max highest (largest (map magnitude (take rounds (drop j samples))))
unfolding peak
peak_lem zero j samples highest = omega arith
peak_lem (suc rounds) j samples highest =
    let abs = at_or_zero j samples in
    let next = if ltb highest abs then abs else highest in
    let later : j + 1 ≡ suc j = omega arith in
    peak_lem rounds (j + 1) samples next
    ∙ ap (λ n. max next (largest (map magnitude (take rounds (drop n samples))))) later
    ∙ elim (drop_lem j samples) [
      | inl (e, z) ↦ rw (e, drop-past j samples e, take-nil rounds, z) (ground arith)
      | inr (s, e, z) ↦ rw (e, z) (ground arith)
    ]

take-min : (n : ℕ) (samples : List Sample) → take (min n (length samples)) samples ≡ take n samples
take-min zero samples = let e : min 0 (length samples) ≡ 0 = omega arith in rw e refl
take-min (suc n) [] = let e : min (suc n) 0 ≡ 0 = omega arith in rw e refl
take-min (suc n) (s ∷ samples) =
    let e : min (suc n) (suc (length samples)) ≡ suc (min n (length samples)) = omega arith in
    rw e (ap (λ xs. s ∷ xs) (take-min n samples))

length-drop : (n : ℕ) (samples : List Sample) → length (drop n samples) ≡ length samples - n
length-drop zero samples = omega arith
length-drop (suc n) [] = omega arith
length-drop (suc n) (s ∷ samples) = omega (arith, length-drop n samples)

pub get_or_zero : List ℕ → ℕ → ℕ
get_or_zero [] i = 0
get_or_zero (n ∷ ns) zero = n
get_or_zero (n ∷ ns) (suc i) = get_or_zero ns i

length-peaks :
    (bars i step : ℕ) (samples : List Sample) → length (peaks_from bars i step samples) ≡ bars
unfolding peaks_from
length-peaks zero i step samples = refl
length-peaks (suc bars) i step samples = ap suc (length-peaks bars (i + 1) step samples)

peaks_bounds :
    (bars i step : ℕ) (samples : List Sample)
    → All (λ n. (15 ≤ n) × (n ≤ 100)) (peaks_from bars i step samples)
unfolding peaks_from
peaks_bounds zero i step samples = tt
peaks_bounds (suc bars) i step samples = (scaled_bounds _, peaks_bounds bars (i + 1) step samples)

max_zero : (n : ℕ) → max 0 n ≡ n
max_zero n = omega arith

bar_lem :
    (bars i k step : ℕ) (samples : List Sample)
    → k < bars
    → get_or_zero (peaks_from bars i step samples) k
      ≡ scaled (largest (map magnitude (segment (i + k) step samples)))
unfolding peaks_from get_or_zero
bar_lem zero i k step samples l = absurd (omega arith)
bar_lem (suc bars) i zero step samples l =
    let start = i * step in
    let rounds = min (start + step) (length samples) - start in
    let e : rounds ≡ min step (length (drop start samples)) =
      omega (arith, length-drop start samples) in
    let here : i + 0 ≡ i = omega arith in
    rw here (
      ap scaled (
        peak_lem rounds start samples 0
        ∙ max_zero (largest (map magnitude (take rounds (drop start samples))))
        ∙ ap (λ n. largest (map magnitude (take n (drop start samples)))) e
        ∙ ap (λ xs. largest (map magnitude xs)) (take-min step (drop start samples))))
bar_lem (suc bars) i (suc k) step samples l =
    let next : i + suc k ≡ i + 1 + k = omega arith in
    rw next (bar_lem bars (i + 1) k step samples (omega arith))

scaled_lem :
    (m : ℕ)
    → let whole = 10 * full_scale in
      (2 * whole * (scaled m - 15) ≤ 2 * 85 * min whole (16 * m) + whole)
      × (2 * 85 * min whole (16 * m) + whole < 2 * whole * (scaled m - 15) + 2 * whole)
unfolding scaled
scaled_lem m = omega arith

-- The waveform has the number of bars that was asked for, each from 15 to 100 percent high. A bar has as
-- many samples as the first channel divided by the number of bars, rounded down, and bar k is 15 percent
-- and p of 85 percent high, rounded to the nearest whole percent, where p is 1.6 times the largest
-- magnitude of its samples, but 1 at most.
pub extract_waveform_peaks_lem :
    (b : AudioBuffer) (num_peaks k : ℕ)
    → k < num_peaks
    → let samples = first_channel b.channels in
      let whole = 10 * full_scale in
      let p =
        min whole (16 * largest (map magnitude (segment k (length samples / num_peaks) samples))) in
      let bar = get_or_zero (extract_waveform_peaks b num_peaks) k in
      (length (extract_waveform_peaks b num_peaks) ≡ num_peaks)
      × All (λ n. (15 ≤ n) × (n ≤ 100)) (extract_waveform_peaks b num_peaks)
      × (2 * whole * (bar - 15) ≤ 2 * 85 * p + whole)
      × (2 * 85 * p + whole < 2 * whole * (bar - 15) + 2 * whole)
unfolding extract_waveform_peaks
extract_waveform_peaks_lem b n k l =
    let samples = first_channel b.channels in
    let step = length samples / n in
    let m = largest (map magnitude (segment k step samples)) in
    let here : 0 + k ≡ k = omega arith in
    let e : get_or_zero (peaks_from n 0 step samples) k ≡ scaled m =
      bar_lem n 0 k step samples l ∙ rw here refl in
    let (low, high) = scaled_lem m in
    (length-peaks n 0 step samples, peaks_bounds n 0 step samples, rw e low, rw e high)
