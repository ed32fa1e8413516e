-- ===== src/Recorder/Sending.antt =====
-- The end of a recording: `onstop`, the quick send, and `handleFinalSend`.
use text.Mathlib.Text.{find?}
use nodetalk.Prelude.{
  ℕ, ◌+◌, ◌-◌, ◌*◌, ◌/◌, ◌%◌, ◌^◌, ◌≤◌, ◌<◌, ◌≡◌, ◌⊎◌, refl, arith, max, length, All, String, Bool,
  true, false, ◌||◌, List, [], ◌∷◌, Option, none, some, nat_beq, ltb, ◌==◌, if◌then◌else◌, is_some,
  Bool-cases, inl, inr,
}
use nodetalk.Audio.{Sample, positive, AudioBuffer, audio_buffer_to_wav, ◌>>=◌}
use nodetalk.Audio.Bytes.{flat}
use nodetalk.Audio.Wav.{header_parts, wav_parts, wav_of_parts}
use nodetalk.Audio.Read.{get_elem?, get_uint16, get_uint32}
use nodetalk.Audio.Trim.{slice_audio_buffer, offset_of, end_of}
use nodetalk.Audio.Trim.Encoded.{bits_of, encoded_slice}
use native.Mathlib.Decide.{dec_lt}
use nodetalk.Recorder.{
  Blob, Recorder, idle, recording, active, inactive, cleanup_recording_resources, duration_of,
  stop_recorder, pause_and_review, discard_recording, show_preview,
}

-- The button that sends while recording.
unfoldable pub quick_send : Recorder → Recorder
unfolding stop_recorder
quick_send r = elim r.media_recorder [
  | none ↦ r
  | some state ↦ elim state [
    | active ↦ stop_recorder (record r { is_discarding = false; is_quick_sending = true })
    | inactive ↦ r
  ]
]

-- `onstop` up to the decoding; the blob is what is decoded.
unfoldable pub on_stop : String → Recorder → Recorder × Option Blob
unfolding cleanup_recording_resources
on_stop mime r =
    let q = cleanup_recording_resources r in
    if r.is_discarding then (record q { chunks = []; mode = idle }, none) else elim r.chunks [
      | [] ↦ (record q { mode = idle }, none)
      | _ ∷ _ ↦ (
        q,
        some (record {
          mime = if mime == "" then "audio/webm;codecs=opus" else mime;
          bytes = r.chunks;
        }),
      )
    ]

-- What is handed to `onSendVoice`.
pub record Outgoing : Type 0 where
  pub extension : String
  pub mime : String
  pub bytes : List ℕ
  pub duration : ℕ

abbrev pub includes : String → String → Bool
includes s t = is_some (find? s t)

unfoldable pub file_of : Blob → ℕ → Outgoing
file_of blob duration =
    let is_wav = includes blob.mime "wav" in
    record {
      extension = if is_wav then "wav" else (if includes blob.mime "ogg" then "ogg" else "webm");
      mime =
          if is_wav
          then "audio/wav"
          else (if blob.mime == "" then "audio/webm;codecs=opus" else blob.mime);
      bytes = blob.bytes;
      duration = duration;
    }

abbrev pub or_else {ℓ} : {A : Type ℓ} → Option A → Option A → Option A
or_else none other = other
or_else (some a) other = some a

-- More than 0.1 seconds are cut off at one end.
abbrev pub is_trimmed : AudioBuffer → ℕ → ℕ → Bool
is_trimmed buffer t_start t_end = ltb 100 t_start || ltb 100 (duration_of buffer - t_end)

unfoldable pub wav_slice : AudioBuffer → ℕ → ℕ → Option (Blob × ℕ)
wav_slice buffer t_start t_end = do
  sliced ← slice_audio_buffer buffer t_start t_end
  bytes ← audio_buffer_to_wav sliced
  some (record { mime = "audio/wav"; bytes = bytes }, duration_of sliced)

-- The blob to send with its duration; `none` where there is none or the encoding throws.
unfoldable pub output_of : Option Blob → ℕ → ℕ → ℕ → Option AudioBuffer → ℕ → Option (Blob × ℕ)
output_of blob t_start t_end exact none duration = do
  b ← blob
  some (b, if nat_beq exact 0 then duration else exact)
output_of blob t_start t_end exact (some buffer) duration =
    if is_trimmed buffer t_start t_end
    then wav_slice buffer t_start t_end
    else do b ← blob; some (b, if nat_beq exact 0 then duration_of buffer else exact)

abbrev pub unless_empty : Option (Blob × ℕ) → Option Outgoing
unless_empty none = none
unless_empty (some (blob, duration)) = elim blob.bytes [
  | [] ↦ none
  | _ ∷ _ ↦ some (file_of blob duration)
]

-- `handleFinalSend` up to `onSendVoice`; `exact` is 0 where it is not given.
unfoldable pub final_send :
    Option Blob → ℕ → ℕ → ℕ → Option AudioBuffer → Recorder → Recorder × Option Outgoing
unfolding output_of
final_send blob t_start t_end exact buf r = (
  record r { is_sending = true },
  unless_empty (
      output_of (or_else blob r.recorded_blob) t_start t_end exact (or_else buf r.audio_buffer)
        r.duration),
)

-- The send button of the preview.
abbrev pub send_preview : Recorder → Recorder × Option Outgoing
send_preview r = final_send none r.trim_start r.trim_end 0 none r

-- `onSendVoice` is over, and whether it succeeded.
unfoldable pub final_sent : Bool → Recorder → Recorder
unfolding discard_recording
final_sent succeeded r = record (if succeeded then discard_recording r else r) {
  is_sending = false;
}

-- `onstop` after the decoding. `captured` is the duration when the recording was started, which the
-- handler keeps.
unfoldable pub on_decoded : Blob → Option AudioBuffer → ℕ → Recorder → Recorder × Option Outgoing
unfolding final_send show_preview
on_decoded blob decoded captured r =
    let exact : ℕ = elim decoded [ none ↦ captured | some buffer ↦ duration_of buffer ] in
    if r.is_quick_sending
    then final_send (some blob) 0 exact exact decoded (record r { is_quick_sending = false })
    else (show_preview blob decoded exact r, none)

trimmed_lem :
    (buffer : AudioBuffer) (t_start t_end : ℕ)
    → is_trimmed buffer t_start t_end ≡ true
    → (100 < t_start) ⊎ (t_end + 100 < duration_of buffer)
trimmed_lem buffer t_start t_end h = elim (dec_lt 100 t_start) [
  | yes l ↦ inl l
  | no n ↦ inr (ground arith)
]

-- The recording is sent from the preview, whose audio has channels of its length and whose recorded
-- bytes are not empty. Either the trim starts at 0.1 seconds at most and ends 0.1 seconds at most before
-- the end of the audio: the bytes are sent as they were recorded, with the duration of the audio. Or one
-- of the two cuts off more: what is sent is a WAV file, as its type and extension say. It has 44 bytes
-- and two for each channel of each sample between the two ends, of which there is one at least, and the
-- sample rate of the audio; sample k of channel c is sample a + k of that channel of the audio, where
-- that lies before the end z, and silence else; and the duration is that of these samples.
pub send_preview_lem :
    (r : Recorder) (buffer : AudioBuffer) (mime : String) (byte c k : ℕ) (bytes : List ℕ)
    (source : List Sample)
    → r.recorded_blob ≡ some (record { mime = mime; bytes = byte ∷ bytes })
    → r.audio_buffer ≡ some buffer
    → All (λ s. length s ≡ buffer.length) buffer.channels
    → get_elem? buffer.channels c ≡ some source
    → k < max 1 (end_of buffer r.trim_end - offset_of r.trim_start buffer.sample_rate)
    → let a = offset_of r.trim_start buffer.sample_rate in
      let z = end_of buffer r.trim_end in
      let n = length buffer.channels in
      (o : Outgoing) × ((send_preview r).1 ≡ some o)
      × (((r.trim_start ≤ 100)
            × (duration_of buffer ≤ r.trim_end + 100)
            × (o.bytes ≡ byte ∷ bytes)
            × (o.duration ≡ duration_of buffer))
          ⊎ (((100 < r.trim_start) ⊎ (r.trim_end + 100 < duration_of buffer))
              × (o.mime ≡ "audio/wav")
              × (o.extension ≡ "wav")
              × (length o.bytes ≡ 44 + max 1 (z - a) * (n * 2))
              × (get_uint32 24 o.bytes ≡ buffer.sample_rate % 2 ^ 32)
              × (get_uint16 (44 + 2 * (k * n + c)) o.bytes
                  ≡ bits_of (if ltb (a + k) z then get_elem? source (a + k) else some (positive 0)))
              × (o.duration ≡ max 1 (z - a) * 1000 / buffer.sample_rate)))
unfolding final_send wav_slice file_of wav_parts header_parts
send_preview_lem r buffer mime byte c k bytes source h e full g l =
    let (t, sliced, rate, long, size, read_rate, read) =
      encoded_slice buffer r.trim_start r.trim_end c k source full g l in
    elim (Bool-cases (is_trimmed buffer r.trim_start r.trim_end)) [
      | inl trim ↦
          let file : Blob = record { mime = "audio/wav"; bytes = flat (wav_parts t) } in
          (
            file_of file (duration_of t),
            rw (h, e, trim, sliced, wav_of_parts t) refl,
            inr (
              trimmed_lem buffer r.trim_start r.trim_end trim,
              refl,
              refl,
              size,
              read_rate,
              read,
              rw (rate, long) refl,
            ),
          )
      | inr trim ↦ (
        file_of (record { mime = mime; bytes = byte ∷ bytes }) (duration_of buffer),
        rw (h, e, trim) refl,
        inl (ground arith, ground arith, refl, refl),
      )
    ]

-- The component while it records, with some bytes recorded.
abbrev pub while_recording : ℕ → List ℕ → Recorder → Recorder
while_recording byte bytes r = record r {
  media_recorder = some active;
  mode = recording;
  chunks = byte ∷ bytes;
}

-- A quick send that fails, where the recording can be decoded: the blob of the recording is not kept,
-- the component still shows that it is recording, without a microphone and a timer, and its button to
-- pause throws.
pub failed_quick_send :
    (r : Recorder) (mime : String) (buffer : AudioBuffer) (captured byte : ℕ) (bytes : List ℕ)
    → let stopped = on_stop mime (quick_send (while_recording byte bytes r)) in
      (blob : Blob) × (stopped.1 ≡ some blob)
      × (blob.bytes ≡ byte ∷ bytes)
      × (let q = final_sent false (on_decoded blob (some buffer) captured stopped.0).0 in
          (q.mode ≡ recording)
          × (q.stream ≡ none)
          × (q.timer ≡ none)
          × (q.recorded_blob ≡ r.recorded_blob)
          × (pause_and_review q ≡ none))
unfolding quick_send on_stop final_sent on_decoded pause_and_review
failed_quick_send r mime buffer captured byte bytes = (
  record { mime = if mime == "" then "audio/webm;codecs=opus" else mime; bytes = byte ∷ bytes },
  refl,
  refl,
  (refl, refl, refl, refl, refl),
)
