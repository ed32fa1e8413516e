-- ===== src/Recorder.antt =====
-- client-web/src/components/VoiceRecorder.tsx: recording a voice message, trimming it and sending it.
-- Times count milliseconds. An operation with an await is cut there; what the browser answers is an
-- argument, and the tracks, timers and URLs that it holds are counted as live.
pub mod Sending
pub mod Trimming
pub mod Released
mod Tests
use nodetalk.Prelude.{
  ℕ, ◌+◌, ◌-◌, ◌*◌, ◌/◌, String, Bool, true, false, ◌||◌, List, [], ◌∷◌, ◌++◌, Option, none, some,
  nat_beq, ltb, min, max, if◌then◌else◌, filter, not, or_default,
}
use nodetalk.Audio.{AudioBuffer}
use nodetalk.Audio.Waveform.{extract_waveform_peaks}

pub data StudioMode : Type 0 where
  idle recording preview : StudioMode

pub record Blob : Type 0 where
  pub mime : String
  pub bytes : List ℕ

pub data Handle : Type 0 where
  start_handle end_handle : Handle

pub data RecorderState : Type 0 where
  inactive active : RecorderState

-- The state and the refs of the component. `frame` stands for a live animation frame, and
-- `stream` for the microphone's; `live_streams` are the streams whose tracks run, `live_urls` the object
-- URLs that were not revoked, and `live_timers` the intervals that were not cleared.
pub record Recorder : Type 0 where
  pub mode : StudioMode
  pub duration : ℕ
  pub is_sending : Bool
  pub audio_buffer : Option AudioBuffer
  pub recorded_blob : Option Blob
  pub waveform_peaks : List ℕ
  pub trim_start : ℕ
  pub trim_end : ℕ
  pub is_playing_preview : Bool
  pub preview_current_time : ℕ
  pub media_recorder : Option RecorderState
  pub stream : Option ℕ
  pub has_analyser : Bool
  pub frame : Bool
  pub timer : Option ℕ
  pub chunks : List ℕ
  pub is_discarding : Bool
  pub is_quick_sending : Bool
  pub preview_audio : Option ℕ
  pub preview_url : Option ℕ
  pub dragging : Option Handle
  pub live_streams : List ℕ
  pub live_urls : List ℕ
  pub live_timers : List ℕ
  pub next_timer : ℕ
  pub next_url : ℕ

abbrev pub drop_id : Option ℕ → List ℕ → List ℕ
drop_id none ids = ids
drop_id (some id) ids = filter (λ i. not (nat_beq i id)) ids

unfoldable pub cleanup_recording_resources : Recorder → Recorder
cleanup_recording_resources r = record r {
  timer = none;
  live_timers = drop_id r.timer r.live_timers;
  frame = false;
  has_analyser = false;
  stream = none;
  live_streams = drop_id r.stream r.live_streams;
}

unfoldable pub cleanup_preview_resources : Recorder → Recorder
cleanup_preview_resources r = record r {
  preview_audio = none;
  preview_url = none;
  live_urls = drop_id r.preview_url r.live_urls;
  is_playing_preview = false;
  preview_current_time = 0;
}

-- Up to the request for the microphone.
unfoldable pub start_recording : Recorder → Recorder
unfolding cleanup_recording_resources cleanup_preview_resources
start_recording r = cleanup_preview_resources (cleanup_recording_resources r)

unfoldable pub recording_failed : Recorder → Recorder
unfolding cleanup_recording_resources
recording_failed r = cleanup_recording_resources (record r { mode = idle })

-- The browser gives the stream.
unfoldable pub recording_started : ℕ → Recorder → Recorder
recording_started stream r = record r {
  stream = some stream;
  live_streams = stream ∷ r.live_streams;
  has_analyser = true;
  media_recorder = some active;
  chunks = [];
  is_discarding = false;
  mode = recording;
  duration = 0;
  frame = true;
  timer = some r.next_timer;
  live_timers = r.next_timer ∷ r.live_timers;
  next_timer = r.next_timer + 1;
}

unfoldable pub timer_fires : Recorder → Recorder
timer_fires r = record r { duration = r.duration + 1000 }

unfoldable pub data_available : List ℕ → Recorder → Recorder
data_available chunk r = record r { chunks = r.chunks ++ chunk }

-- Of the decoded audio.
abbrev pub duration_of : AudioBuffer → ℕ
duration_of buffer = buffer.length * 1000 / buffer.sample_rate

unfoldable pub stop_recorder : Recorder → Recorder
stop_recorder r = record r { media_recorder = some inactive }

-- `none`: `stop` throws, since the recorder is inactive.
unfoldable pub pause_and_review : Recorder → Option Recorder
unfolding stop_recorder
pause_and_review r = elim r.media_recorder [
  | none ↦ some r
  | some state ↦ elim r.mode [
    | recording ↦ elim state [
      | active ↦ some (stop_recorder (record r { is_discarding = false; is_quick_sending = false }))
      | inactive ↦ none
    ]
    | _ ↦ some r
  ]
]

abbrev pub stop_if_active : Option RecorderState → Option RecorderState
stop_if_active none = none
stop_if_active (some state) = some inactive

unfoldable pub discard_recording : Recorder → Recorder
unfolding cleanup_recording_resources cleanup_preview_resources
discard_recording r =
    record (cleanup_preview_resources (
      cleanup_recording_resources (record r {
        is_discarding = true;
        is_quick_sending = false;
        media_recorder = stop_if_active r.media_recorder;
      }))) { recorded_blob = none; audio_buffer = none; mode = idle; duration = 0 }

unfoldable pub unmount : Recorder → Recorder
unfolding cleanup_recording_resources cleanup_preview_resources
unmount r = cleanup_preview_resources (cleanup_recording_resources r)

-- The preview of the recording, after `onstop` has decoded it; `none` where it cannot be decoded.
unfoldable pub show_preview : Blob → Option AudioBuffer → ℕ → Recorder → Recorder
show_preview blob decoded exact_duration r = record r {
  recorded_blob = some blob;
  audio_buffer = decoded;
  waveform_peaks = elim decoded [ none ↦ [] | some buffer ↦ extract_waveform_peaks buffer 36 ];
  trim_start = 0;
  trim_end = exact_duration;
  duration = exact_duration;
  preview_url = some r.next_url;
  preview_audio = some 0;
  live_urls = r.next_url ∷ r.live_urls;
  next_url = r.next_url + 1;
  mode = preview;
}

-- The reset button.
unfoldable pub reset_trim : Recorder → Recorder
reset_trim r = elim r.audio_buffer [
  | none ↦ r
  | some buffer ↦ record r {
    trim_start = 0;
    trim_end = duration_of buffer;
    preview_audio = elim r.preview_audio [ none ↦ none | some time ↦ some 0 ];
  }
]

unfoldable pub handle_pointer_down : Handle → Recorder → Recorder
handle_pointer_down handle r = record r { dragging = some handle }

-- The pointer is at a place that stands for the time `target` of the audio.
unfoldable pub handle_pointer_move : ℕ → Recorder → Recorder
handle_pointer_move target r = elim r.dragging [
  | none ↦ r
  | some handle ↦ elim r.audio_buffer [
    | none ↦ r
    | some buffer ↦ elim handle [
      | start_handle ↦
          let new_start = min target (r.trim_end - 500) in
          record r {
            trim_start = new_start;
            preview_audio = elim r.preview_audio [ none ↦ none | some time ↦ some new_start ];
          }
      | end_handle ↦ record r {
        trim_end = min (duration_of buffer) (max target (r.trim_start + 500));
      }
    ]
  ]
]

unfoldable pub handle_pointer_up : Recorder → Recorder
handle_pointer_up r = record r { dragging = none }
