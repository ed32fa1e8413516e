-- ===== src/Recorder/Tests.antt =====
-- The theorems on the voice recorder at a short recording.
use nodetalk.Prelude.{
  ◌+◌, ◌-◌, ◌*◌, ◌/◌, ◌%◌, ◌^◌, ◌≤◌, ◌<◌, ◌≡◌, ◌⊎◌, refl, arith, max, length, ltb, true, false,
  List, [], ◌∷◌, none, some, nat_beq, any, if◌then◌else◌,
}
use nodetalk.Audio.{Sample, positive, AudioBuffer}
use nodetalk.Audio.Read.{get_elem?, get_uint16, get_uint32}
use nodetalk.Audio.Trim.{offset_of, end_of}
use nodetalk.Audio.Trim.Encoded.{bits_of}
use nodetalk.Recorder.{
  Blob, start_handle, end_handle, Recorder, idle, duration_of, start_recording, recording_started,
  discard_recording, unmount, show_preview,
}
use nodetalk.Recorder.Sending.{Outgoing, send_preview, send_preview_lem}
use nodetalk.Recorder.Trimming.{presses, moves, releases, resets, drag_all, IsTrimmed, trim_bounds}
use nodetalk.Recorder.Released.{IsReleased, discard_recording_lem, double_start_leaks}

abbrev recorder : Recorder
recorder = record {
  mode = idle;
  duration = 0;
  is_sending = false;
  audio_buffer = none;
  recorded_blob = none;
  waveform_peaks = [];
  trim_start = 0;
  trim_end = 0;
  is_playing_preview = false;
  preview_current_time = 0;
  media_recorder = none;
  stream = none;
  has_analyser = false;
  frame = false;
  timer = none;
  chunks = [];
  is_discarding = false;
  is_quick_sending = false;
  preview_audio = none;
  preview_url = none;
  dragging = none;
  live_streams = [];
  live_urls = [];
  live_timers = [];
  next_timer = 1;
  next_url = 3;
}

abbrev samples : List Sample
samples = positive 1 ∷ positive 2 ∷ positive 3 ∷ positive 4 ∷ []

-- Four samples at 4 Hz are a second.
abbrev sound : AudioBuffer
sound = record { sample_rate = 4; length = 4; channels = samples ∷ [] }

abbrev blob : Blob
blob = record { mime = "audio/ogg"; bytes = 1 ∷ 2 ∷ [] }

abbrev in_preview : Recorder
in_preview = record recorder {
  audio_buffer = some sound;
  recorded_blob = some blob;
  trim_start = 500;
  trim_end = 1000;
}

send_preview_lem_example :
    (o : Outgoing) × ((send_preview in_preview).1 ≡ some o)
    × (((500 ≤ 100)
          × (duration_of sound ≤ 1000 + 100)
          × (o.bytes ≡ 1 ∷ 2 ∷ [])
          × (o.duration ≡ duration_of sound))
        ⊎ (((100 < 500) ⊎ (1000 + 100 < duration_of sound))
            × (o.mime ≡ "audio/wav")
            × (o.extension ≡ "wav")
            × (length o.bytes ≡ 44 + max 1 (end_of sound 1000 - offset_of 500 4) * (1 * 2))
            × (get_uint32 24 o.bytes ≡ 4 % 2 ^ 32)
            × (get_uint16 (44 + 2 * (0 * 1 + 0)) o.bytes
                ≡ bits_of (
                    if ltb (offset_of 500 4 + 0) (end_of sound 1000)
                    then get_elem? samples (offset_of 500 4 + 0)
                    else some (positive 0)))
            × (o.duration ≡ max 1 (end_of sound 1000 - offset_of 500 4) * 1000 / 4)))
send_preview_lem_example =
    send_preview_lem in_preview sound "audio/ogg" 1 0 0 (2 ∷ []) samples refl refl (refl, tt) refl
      (omega arith)

trim_bounds_example : IsTrimmed sound (
    drag_all
      (presses start_handle ∷ moves 900 ∷ releases ∷ presses end_handle ∷ moves 20 ∷ resets ∷ [])
      (show_preview blob (some sound) (duration_of sound) recorder))
trim_bounds_example =
    trim_bounds
      (presses start_handle ∷ moves 900 ∷ releases ∷ presses end_handle ∷ moves 20 ∷ resets ∷ [])
      blob sound recorder

abbrev holding : Recorder
holding = record recorder {
  stream = some 5;
  live_streams = 5 ∷ [];
  timer = some 0;
  live_timers = 0 ∷ [];
}

discard_recording_lem_example :
    IsReleased (discard_recording holding)
    × IsReleased (start_recording holding)
    × IsReleased (unmount holding)
    × ((discard_recording holding).mode ≡ idle)
    × ((discard_recording holding).recorded_blob ≡ none)
discard_recording_lem_example = discard_recording_lem holding ((refl, tt), tt, (refl, tt))

double_start_leaks_example :
    let q =
      recording_started 2 (recording_started 1 (start_recording (start_recording recorder))) in
    (any (λ s. nat_beq s 1) (discard_recording q).live_streams ≡ true)
    × (any (λ s. nat_beq s 1) (unmount q).live_streams ≡ true)
    × (any
          (λ s. nat_beq s 1)
          (recording_started 1 (unmount (start_recording recorder))).live_streams
        ≡ true)
    × (any (λ t. nat_beq t recorder.next_timer) (discard_recording q).live_timers ≡ true)
    × (any (λ t. nat_beq t recorder.next_timer) (unmount q).live_timers ≡ true)
double_start_leaks_example = double_start_leaks recorder 1 2 refl
