-- ===== src/Audio/Wav.antt =====
-- The WAV files that the two encoders make.
use nodetalk.Prelude.{
  ℕ, zero, suc, ◌+◌, ◌*◌, ◌≡◌, refl, sym, ap, ◌∙◌, List, [], ◌∷◌, ◌++◌, some, arith, length,
  length-append,
}
use nodetalk.Audio.{
  Sample, positive, negative, AudioBuffer, set_bytes, zeros, uint16_bytes, uint32_bytes, char_codes,
  ◌>>=◌, sample_at, write_frame, write_frames, write_header, audio_buffer_to_wav, clamp, pcm16,
  pcm_at, to_int16, player_header, write_channels, write_interleaved, player_wav, block_align,
  data_size,
}
use mathlib.Core.List.{append-nil}
use nodetalk.Audio.Bytes.{put_all, put_all_lem, put_all-append, bind_cong, flat}

unfoldable pub header_parts : AudioBuffer → List (List ℕ)
header_parts b =
    char_codes "RIFF"
    ∷ uint32_bytes (36 + data_size b)
    ∷ char_codes "WAVE"
    ∷ char_codes "fmt "
    ∷ uint32_bytes 16
    ∷ uint16_bytes 1
    ∷ uint16_bytes (length b.channels)
    ∷ uint32_bytes b.sample_rate
    ∷ uint32_bytes (b.sample_rate * block_align b)
    ∷ uint16_bytes (block_align b)
    ∷ uint16_bytes 16
    ∷ char_codes "data"
    ∷ uint32_bytes (data_size b)
    ∷ []

unfoldable pub frame_parts : ℕ → List (List Sample) → List (List ℕ)
frame_parts i [] = []
frame_parts i (channel ∷ channels) = uint16_bytes (sample_at i channel) ∷ frame_parts i channels

unfoldable pub body_parts : ℕ → ℕ → List (List Sample) → List (List ℕ)
unfolding frame_parts
body_parts zero i channels = []
body_parts (suc frames) i channels = frame_parts i channels ++ body_parts frames (i + 1) channels

pub length-frame :
    (i : ℕ) (channels : List (List Sample))
    → length (flat (frame_parts i channels)) ≡ 2 * length channels
unfolding frame_parts
length-frame i [] = refl
length-frame i (channel ∷ channels) = omega (arith, length-frame i channels)

length-flat :
    (parts others : List (List ℕ))
    → length (flat (parts ++ others)) ≡ length (flat parts) + length (flat others)
length-flat [] others = omega arith
length-flat (bytes ∷ parts) others = omega (
  arith,
  length-flat parts others,
  length-append bytes (flat parts),
  length-append bytes (flat (parts ++ others)),
)

length-body :
    (frames i : ℕ) (channels : List (List Sample))
    → length (flat (body_parts frames i channels)) ≡ frames * (length channels * 2)
unfolding body_parts
length-body zero i channels = omega arith
length-body (suc frames) i channels = grind (
  arith,
  length-body frames (i + 1) channels,
  length-frame i channels,
  length-flat (frame_parts i channels) (body_parts frames (i + 1) channels),
)

write_frame_lem :
    (offset i : ℕ) (channels : List (List Sample)) (view : List ℕ)
    → write_frame offset i channels view ≡ put_all offset (frame_parts i channels) view
unfolding write_frame put_all frame_parts
write_frame_lem offset i [] view = refl
write_frame_lem offset i (channel ∷ channels) view =
    bind_cong (set_bytes offset (uint16_bytes (sample_at i channel)) view) _ _
      (write_frame_lem (offset + 2) i channels)

write_frames_lem :
    (frames offset i : ℕ) (channels : List (List Sample)) (view : List ℕ)
    → write_frames frames offset i channels view
      ≡ put_all offset (body_parts frames i channels) view
unfolding write_frames body_parts put_all
write_frames_lem zero offset i channels view = refl
write_frames_lem (suc frames) offset i channels view =
    let next = offset + 2 * length channels in
    ap (λ m. m >>= λ v. write_frames frames next (i + 1) channels v)
      (write_frame_lem offset i channels view)
    ∙ bind_cong (put_all offset (frame_parts i channels) view) _ _
        (write_frames_lem frames next (i + 1) channels)
    ∙ sym (
        put_all-append offset next (frame_parts i channels) (body_parts frames (i + 1) channels)
          view (omega (arith, length-frame i channels)))

-- Both files are the header and then the frames.
unfoldable pub wav_parts : AudioBuffer → List (List ℕ)
unfolding header_parts body_parts
wav_parts b = header_parts b ++ body_parts b.length 0 b.channels

pub length-wav : (b : AudioBuffer) → length (flat (wav_parts b)) ≡ 44 + data_size b
unfolding wav_parts
length-wav b = omega (
  arith,
  length-flat (header_parts b) (body_parts b.length 0 b.channels),
  length-body b.length 0 b.channels,
)

pub wav_of_parts : (b : AudioBuffer) → audio_buffer_to_wav b ≡ some (flat (wav_parts b))
unfolding audio_buffer_to_wav write_header wav_parts put_all
wav_of_parts b =
    let header = header_parts b in
    let body = body_parts b.length 0 b.channels in
    let size : 44 + data_size b ≡ length (flat (wav_parts b)) + 0 = omega (arith, length-wav b) in
    bind_cong (put_all 0 header (zeros (44 + data_size b))) _ _
      (write_frames_lem b.length 44 0 b.channels)
    ∙ sym (put_all-append 0 44 header body (zeros (44 + data_size b)) refl)
    ∙ ap (λ n. put_all 0 (wav_parts b) (zeros n)) size
    ∙ put_all_lem [] (wav_parts b) 0 0 refl
    ∙ ap some (append-nil (flat (wav_parts b)))

clamped : (s : Sample) → pcm16 (clamp s) ≡ to_int16 s
unfolding clamp pcm16 to_int16
clamped (positive n) = ground arith
clamped (negative n) = ground arith

pcm_at_lem : (i : ℕ) (samples : List Sample) → pcm_at i samples ≡ sample_at i samples
unfolding pcm_at sample_at
pcm_at_lem i [] = refl
pcm_at_lem zero (s ∷ samples) = clamped s
pcm_at_lem (suc i) (s ∷ samples) = pcm_at_lem i samples

player_header_lem : (b : AudioBuffer) (v : List ℕ) → player_header b v ≡ write_header b v
unfolding player_header write_header
player_header_lem b v = refl

write_channels_lem :
    (index i : ℕ) (channels : List (List Sample)) (view : List ℕ)
    → write_channels index i channels view ≡ write_frame (44 + index) i channels view
unfolding write_channels write_frame
write_channels_lem index i [] view = refl
write_channels_lem index i (channel ∷ channels) view =
    let e : 44 + index + 2 ≡ 44 + (index + 2) = omega arith in
    rw (e, pcm_at_lem i channel)
      (bind_cong (set_bytes (44 + index) (uint16_bytes (sample_at i channel)) view) _ _
        (write_channels_lem (index + 2) i channels))

write_interleaved_lem :
    (frames index i : ℕ) (channels : List (List Sample)) (view : List ℕ)
    → write_interleaved frames index i channels view
      ≡ write_frames frames (44 + index) i channels view
unfolding write_interleaved write_frames
write_interleaved_lem zero index i channels view = refl
write_interleaved_lem (suc frames) index i channels view =
    let step = 2 * length channels in
    let e : 44 + index + step ≡ 44 + (index + step) = omega arith in
    rw e (
      ap (λ m. m >>= λ v. write_interleaved frames (index + step) (i + 1) channels v)
        (write_channels_lem index i channels view)
      ∙ bind_cong (write_frame (44 + index) i channels view) _ _
          (write_interleaved_lem frames (index + step) (i + 1) channels))

-- The encoder of the voice player and that of the recorder make the same file.
pub player_wav_lem : (b : AudioBuffer) → player_wav b ≡ audio_buffer_to_wav b
unfolding player_wav audio_buffer_to_wav
player_wav_lem b =
    ap (λ m. m >>= λ v. write_interleaved b.length 0 0 b.channels v)
      (player_header_lem b (zeros (44 + data_size b)))
    ∙ bind_cong (write_header b (zeros (44 + data_size b))) _ _
        (write_interleaved_lem b.length 0 0 b.channels)
