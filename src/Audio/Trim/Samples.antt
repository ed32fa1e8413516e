-- ===== src/Audio/Trim/Samples.antt =====
-- The samples of trimmed audio.
use nodetalk.Prelude.{
  ℕ, zero, suc, ◌+◌, ◌-◌, ◌≤◌, ◌<◌, ◌≡◌, refl, sym, ap, ◌∙◌, List, [], ◌∷◌, ◌++◌, none, some, arith,
  max, length, length-append, ltb, All, if◌then◌else◌,
}
use nodetalk.Audio.Read.{get_elem?}
use nodetalk.Audio.{Sample, positive, AudioBuffer}
use nodetalk.Audio.Trim.{
  take, drop, silence, set_samples, subarray, trim_channels, offset_of, end_of, slice_audio_buffer,
}

length-take {ℓ} : {A : Type ℓ} (n : ℕ) (xs : List A) → n ≤ length xs → length (take n xs) ≡ n
length-take zero xs h = refl
length-take (suc n) [] h = absurd (omega arith)
length-take (suc n) (x ∷ xs) h = omega (arith, length-take n xs (omega arith))

length-drop {ℓ} : {A : Type ℓ} (n : ℕ) (xs : List A) → length (drop n xs) ≡ length xs - n
length-drop zero xs = omega arith
length-drop (suc n) [] = omega arith
length-drop (suc n) (x ∷ xs) = omega (arith, length-drop n xs)

length-silence : (n : ℕ) → length (silence n) ≡ n
length-silence zero = refl
length-silence (suc n) = omega (arith, length-silence n)

length-subarray :
    (start end : ℕ) (source : List Sample)
    → end ≤ length source
    → length (subarray start end source) ≡ end - start
unfolding subarray
length-subarray start end source h =
    omega (arith, length-drop {0} start (take end source), length-take {0} end source h)

-- What is set, with silence after it.
abbrev padded : ℕ → ℕ → ℕ → List Sample → List Sample
padded start end frames source =
    let part = subarray start end source in part ++ drop (length part) (silence frames)

set_samples_lem :
    (start end : ℕ) (source : List Sample)
    → end ≤ length source
    → set_samples (silence (max 1 (end - start))) (subarray start end source)
      ≡ some (padded start end (max 1 (end - start)) source)
unfolding set_samples
set_samples_lem start end source h =
    ground (arith, length-subarray start end source h, length-silence (max 1 (end - start)))

unfoldable pub trim_all : ℕ → ℕ → List (List Sample) → List (List Sample)
trim_all start end [] = []
trim_all start end (source ∷ channels) =
    padded start end (max 1 (end - start)) source ∷ trim_all start end channels

trim_channels_lem :
    (start end : ℕ) (channels : List (List Sample))
    → All (λ source. end ≤ length source) channels
    → trim_channels start end (max 1 (end - start)) channels ≡ some (trim_all start end channels)
unfolding trim_channels trim_all
trim_channels_lem start end [] h = refl
trim_channels_lem start end (source ∷ channels) h =
    rw (set_samples_lem start end source h.0, trim_channels_lem start end channels h.1) refl

module _ {ℓ} {A : Type ℓ} where
  get-append :
      (xs ys : List A) (k : ℕ)
      → get_elem? (xs ++ ys) k
        ≡ (if ltb k (length xs) then get_elem? xs k else get_elem? ys (k - length xs))
  get-append [] ys k = ground arith
  get-append (x ∷ xs) ys zero = ground arith
  get-append (x ∷ xs) ys (suc k) = ground (arith, get-append xs ys k)

  get-drop : (n : ℕ) (xs : List A) (k : ℕ) → get_elem? (drop n xs) k ≡ get_elem? xs (n + k)
  get-drop zero xs k = ap (get_elem? xs) (let e : k ≡ 0 + k = omega arith in e)
  get-drop (suc n) [] k = refl
  get-drop (suc n) (x ∷ xs) k =
      get-drop n xs k ∙ ap (get_elem? (x ∷ xs)) (let e : suc (n + k) ≡ suc n + k = omega arith in e)

  get-take :
      (n : ℕ) (xs : List A) (k : ℕ)
      → get_elem? (take n xs) k ≡ (if ltb k n then get_elem? xs k else none)
  get-take zero xs k = ground arith
  get-take (suc n) [] k = ground arith
  get-take (suc n) (x ∷ xs) zero = ground arith
  get-take (suc n) (x ∷ xs) (suc k) = ground (arith, get-take n xs k)

get-silence : (n k : ℕ) → k < n → get_elem? (silence n) k ≡ some (positive 0)
get-silence zero k h = absurd (omega arith)
get-silence (suc n) zero h = refl
get-silence (suc n) (suc k) h = get-silence n k (omega arith)

get-subarray :
    (start end k : ℕ) (source : List Sample)
    → get_elem? (subarray start end source) k
      ≡ (if ltb (start + k) end then get_elem? source (start + k) else none)
unfolding subarray
get-subarray start end k source =
    get-drop start (take end source) k ∙ get-take end source (start + k)

get-rest :
    (frames k n : ℕ)
    → k < frames
    → n ≤ k
    → get_elem? (drop n (silence frames)) (k - n) ≡ some (positive 0)
get-rest frames k n h l =
    get-drop n (silence frames) (k - n) ∙ get-silence frames (n + (k - n)) (omega arith)

get-padded :
    (start end k : ℕ) (source : List Sample)
    → end ≤ length source
    → k < max 1 (end - start)
    → get_elem? (padded start end (max 1 (end - start)) source) k
      ≡ (if ltb (start + k) end then get_elem? source (start + k) else some (positive 0))
get-padded start end k source h l =
    let part = subarray start end source in
    let frames = max 1 (end - start) in
    get-append part (drop (length part) (silence frames)) k
    ∙ ground (
      arith,
      get-subarray start end k source,
      get-rest frames k (length part) l,
      length-subarray start end source h,
    )

pub get-trim_all :
    (start end c : ℕ) (source : List Sample) (channels : List (List Sample))
    → get_elem? channels c ≡ some source
    → get_elem? (trim_all start end channels) c
      ≡ some (padded start end (max 1 (end - start)) source)
unfolding trim_all
get-trim_all start end c source [] h = cc
get-trim_all start end zero source (first ∷ channels) h =
    let same : first ≡ source = cc in
    ap (λ ch. some (padded start end (max 1 (end - start)) ch)) same
get-trim_all start end (suc c) source (first ∷ channels) h =
    get-trim_all start end c source channels h

length-padded :
    (start end : ℕ) (source : List Sample)
    → end ≤ length source
    → length (padded start end (max 1 (end - start)) source) ≡ max 1 (end - start)
length-padded start end source h =
    let part = subarray start end source in
    let frames = max 1 (end - start) in
    omega (
      arith,
      length-append part (drop (length part) (silence frames)),
      length-drop {0} (length part) (silence frames),
      length-silence frames,
      length-subarray start end source h,
    )

full_channels :
    (n end : ℕ) (channels : List (List Sample))
    → All (λ source. length source ≡ n) channels
    → end ≤ n
    → All (λ source. end ≤ length source) channels
full_channels n end [] h l = tt
full_channels n end (source ∷ channels) h l = (omega arith, full_channels n end channels h.1 l)

channel_length :
    (n c : ℕ) (channels : List (List Sample)) (source : List Sample)
    → All (λ s. length s ≡ n) channels
    → get_elem? channels c ≡ some source
    → length source ≡ n
channel_length n c [] source h g = cc
channel_length n zero (first ∷ channels) source h g =
    let same : first ≡ source = cc in ap length (sym same) ∙ h.0
channel_length n (suc c) (first ∷ channels) source h g = channel_length n c channels source h.1 g

length-trim_all :
    (start end : ℕ) (channels : List (List Sample))
    → length (trim_all start end channels) ≡ length channels
unfolding trim_all
length-trim_all start end [] = refl
length-trim_all start end (source ∷ channels) = ap suc (length-trim_all start end channels)

-- Trimming a buffer whose channels have its length, to the times from a to z: it does not fail, what
-- comes has the same sample rate and number of channels, and as many samples as lie between the two
-- times and the end of the audio, but one at least; and sample k of its channel c is sample a + k of
-- that channel of the buffer, where that lies before z, and silence else.
pub slice_audio_buffer_lem :
    (b : AudioBuffer) (start_time end_time c k : ℕ) (source : List Sample)
    → All (λ s. length s ≡ b.length) b.channels
    → get_elem? b.channels c ≡ some source
    → k < max 1 (end_of b end_time - offset_of start_time b.sample_rate)
    → let a = offset_of start_time b.sample_rate in
      let z = end_of b end_time in
      (t : AudioBuffer) × (target : List Sample) × (slice_audio_buffer b start_time end_time
        ≡ some t)
      × (t.sample_rate ≡ b.sample_rate)
      × (length t.channels ≡ length b.channels)
      × (t.length ≡ max 1 (z - a))
      × (get_elem? t.channels c ≡ some target)
      × (length target ≡ t.length)
      × (get_elem? target k
          ≡ (if ltb (a + k) z then get_elem? source (a + k) else some (positive 0)))
unfolding slice_audio_buffer
slice_audio_buffer_lem b start_time end_time c k source h g l =
    let a = offset_of start_time b.sample_rate in
    let z = end_of b end_time in
    let long : z ≤ length source = omega (arith, channel_length b.length c b.channels source h g) in
    (
      record {
        sample_rate = b.sample_rate;
        length = max 1 (z - a);
        channels = trim_all a z b.channels;
      },
      padded a z (max 1 (z - a)) source,
      rw (trim_channels_lem a z b.channels (full_channels b.length z b.channels h (omega arith)))
          refl,
      refl,
      length-trim_all a z b.channels,
      refl,
      get-trim_all a z c source b.channels g,
      length-padded a z source long,
      get-padded a z k source long l,
    )
