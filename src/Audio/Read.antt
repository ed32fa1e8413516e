-- ===== src/Audio/Read.antt =====
-- What a reader finds in the WAV file of some audio.
use nodetalk.Prelude.{
  ℕ, zero, suc, ◌+◌, ◌-◌, ◌*◌, ◌/◌, ◌%◌, ◌^◌, ◌<◌, ◌≡◌, refl, sym, ap, ◌∙◌, List, [], ◌∷◌, ◌++◌,
  Option, none, some, arith, length,
}
use mathlib.Core.List.{append_assoc}
use nodetalk.Audio.{
  Sample, positive, negative, AudioBuffer, to_int16, uint16_bytes, sample_at, audio_buffer_to_wav,
}
use nodetalk.Audio.Bytes.{flat}
use nodetalk.Audio.Wav.{
  header_parts, frame_parts, body_parts, wav_parts, length-frame, length-wav, wav_of_parts,
}

byte_at : ℕ → List ℕ → ℕ
byte_at o [] = 0
byte_at zero (b ∷ bytes) = b
byte_at (suc o) (b ∷ bytes) = byte_at o bytes

-- What a reader of the file finds at an offset.
pub get_uint16 : ℕ → List ℕ → ℕ
unfolding byte_at
get_uint16 o file = byte_at o file + 256 * byte_at (o + 1) file

pub get_uint32 : ℕ → List ℕ → ℕ
unfolding get_uint16
get_uint32 o file = get_uint16 o file + 65536 * get_uint16 (o + 2) file

byte_at-append : (xs ys : List ℕ) (k : ℕ) → byte_at (length xs + k) (xs ++ ys) ≡ byte_at k ys
unfolding byte_at
byte_at-append [] ys k = ap (λ o. byte_at o ys) (let e : 0 + k ≡ k = omega arith in e)
byte_at-append (x ∷ xs) ys k =
    let e : suc (length xs) + k ≡ suc (length xs + k) = omega arith in rw e (byte_at-append xs ys k)

get_uint16-append :
    (xs ys : List ℕ) (k : ℕ) → get_uint16 (length xs + k) (xs ++ ys) ≡ get_uint16 k ys
unfolding get_uint16
get_uint16-append xs ys k =
    let e : length xs + k + 1 ≡ length xs + (k + 1) = omega arith in
    rw e (omega (arith, byte_at-append xs ys k, byte_at-append xs ys (k + 1)))

to_int16_bound : (s : Sample) → to_int16 s < 65536
unfolding to_int16
to_int16_bound (positive n) = omega arith
to_int16_bound (negative n) = omega arith

sample_at_bound : (i : ℕ) (samples : List Sample) → sample_at i samples < 65536
unfolding sample_at
sample_at_bound i [] = omega arith
sample_at_bound zero (s ∷ samples) = to_int16_bound s
sample_at_bound (suc i) (s ∷ samples) = sample_at_bound i samples

word : (n : ℕ) → n < 65536 → n % 256 + 256 * (n / 256 % 256) ≡ n
word n h = omega arith

flat-append : (parts others : List (List ℕ)) → flat (parts ++ others) ≡ flat parts ++ flat others
flat-append [] others = refl
flat-append (bytes ∷ parts) others =
    ap (λ l. bytes ++ l) (flat-append parts others)
    ∙ sym (append_assoc bytes (flat parts) (flat others))

abbrev pub get_elem? {ℓ} : {A : Type ℓ} → List A → ℕ → Option A
get_elem? [] i = none
get_elem? (x ∷ xs) zero = some x
get_elem? (x ∷ xs) (suc i) = get_elem? xs i

read_channel :
    (i c : ℕ) (channels : List (List Sample)) (channel : List Sample) (rest : List ℕ)
    → get_elem? channels c ≡ some channel
    → get_uint16 (2 * c) (flat (frame_parts i channels) ++ rest) ≡ sample_at i channel
unfolding frame_parts get_uint16 byte_at
read_channel i c [] channel rest h = cc
read_channel i zero (first ∷ channels) channel rest h =
    let same : first ≡ channel = cc in
    word (sample_at i first) (sample_at_bound i first) ∙ ap (sample_at i) same
read_channel i (suc c) (first ∷ channels) channel rest h =
    let e : 2 * suc c ≡ 2 + 2 * c = omega arith in
    rw e (
      get_uint16-append (uint16_bytes (sample_at i first)) _ (2 * c)
      ∙ read_channel i c channels channel rest h)

read_frame :
    (frames f i c : ℕ) (channels : List (List Sample)) (channel : List Sample)
    → f < frames
    → get_elem? channels c ≡ some channel
    → get_uint16 (2 * (f * length channels + c)) (flat (body_parts frames i channels))
      ≡ sample_at (i + f) channel
unfolding body_parts
read_frame zero f i c channels channel l h = absurd (omega arith)
read_frame (suc frames) zero i c channels channel l h =
    let here : 2 * (0 * length channels + c) ≡ 2 * c = omega arith in
    let now : i ≡ i + 0 = omega arith in
    let later = body_parts frames (i + 1) channels in
    ap (λ o. get_uint16 o (flat (frame_parts i channels ++ later))) here
    ∙ ap (get_uint16 (2 * c)) (flat-append (frame_parts i channels) later)
    ∙ read_channel i c channels channel (flat later) h
    ∙ ap (λ k. sample_at k channel) now
read_frame (suc frames) (suc f) i c channels channel l h =
    let n = length channels in
    let frame = flat (frame_parts i channels) in
    let later = body_parts frames (i + 1) channels in
    let there : 2 * (suc f * n + c) ≡ length frame + 2 * (f * n + c) =
      grind (arith, length-frame i channels) in
    let now : i + 1 + f ≡ i + suc f = omega arith in
    ap (λ o. get_uint16 o (flat (frame_parts i channels ++ later))) there
    ∙ ap (get_uint16 (length frame + 2 * (f * n + c))) (flat-append (frame_parts i channels) later)
    ∙ get_uint16-append frame (flat later) (2 * (f * n + c))
    ∙ read_frame frames f (i + 1) c channels channel (omega arith) h
    ∙ ap (λ k. sample_at k channel) now

read_wav :
    (b : AudioBuffer) (f c : ℕ) (channel : List Sample)
    → f < b.length
    → get_elem? b.channels c ≡ some channel
    → get_uint16 (44 + 2 * (f * length b.channels + c)) (flat (wav_parts b)) ≡ sample_at f channel
unfolding wav_parts header_parts
read_wav b f c channel l h =
    let body = body_parts b.length 0 b.channels in
    let k = 2 * (f * length b.channels + c) in
    ap (get_uint16 (44 + k)) (flat-append (header_parts b) body)
    ∙ get_uint16-append (flat (header_parts b)) (flat body) k
    ∙ read_frame b.length f 0 c b.channels channel l h
    ∙ ap (λ n. sample_at n channel) (let e : 0 + f ≡ f = omega arith in e)

-- The WAV file of a buffer: no write is out of range, the file has 44 bytes and two for each sample of
-- each channel; a reader finds in its header the size of what follows, the number of channels, the
-- sample rate and the size of the samples, each modulo the width of its field; and at the place of frame
-- f of channel c, which is one of the channels, it finds the 16 bits of that sample.
pub wav_lem :
    (b : AudioBuffer) (f c : ℕ) (channel : List Sample)
    → f < b.length
    → get_elem? b.channels c ≡ some channel
    → (file : List ℕ) × (audio_buffer_to_wav b ≡ some file)
      × (length file ≡ 44 + b.length * (length b.channels * 2))
      × (get_uint32 4 file ≡ (length file - 8) % 2 ^ 32)
      × (get_uint16 22 file ≡ length b.channels % 2 ^ 16)
      × (get_uint32 24 file ≡ b.sample_rate % 2 ^ 32)
      × (get_uint32 40 file ≡ (b.length * (length b.channels * 2)) % 2 ^ 32)
      × (get_uint16 (44 + 2 * (f * length b.channels + c)) file ≡ sample_at f channel)
unfolding get_uint32 get_uint16 byte_at wav_parts header_parts
wav_lem b f c channel l h = (
  flat (wav_parts b),
  wav_of_parts b,
  length-wav b,
  omega (arith, length-wav b),
  omega arith,
  omega arith,
  omega arith,
  read_wav b f c channel l h,
)
