-- ===== src/Rtc.antt =====
-- client-web/src/rtc/WebRTCManager.ts: one call with its two peer connections. `Rtc` holds the fields
-- of the manager with what its methods read and write besides: the voice store, the frames that ws.ts
-- sends, and the tracks that were stopped. A method that awaits the browser is cut there, and what the
-- browser answers is an argument. Gains count hundredths, as volumes do.
pub mod Audio
pub mod Media
pub mod Screen
pub mod Senders
pub mod Naming
pub mod Sharing
pub mod Signals
pub mod Call
pub mod Tracks
pub mod Candidates
pub mod Switching
pub mod Leaving
pub mod Gains
pub mod Speaking
mod Tests
use nodetalk.Prelude.{ℕ, String, Bool, List, [], ◌∷◌, ◌++◌, Option, none, some, ◌==◌, if◌then◌else◌}
use nodetalk.Prelude.Dict.{Dict}
use nodetalk.Voice.{Voice, add_log}
use nodetalk.Voice.Streams.{TrackKind}
use nodetalk.Voice.Actions.{Internal, set_internal_state}

-- A `MediaStreamTrack` and a `MediaStream` of the browser, by their ids.
pub record Track : Type 0 where
  pub id : String
  pub enabled : Bool

pub record MediaStream : Type 0 where
  pub id : String
  pub tracks : List String

-- `RTCSessionDescriptionInit`, the text by its lines.
pub record Sdp : Type 0 where
  pub kind : String
  pub lines : List String

-- What the manager reads and makes of an `RTCPeerConnection`: the descriptions, the candidates handed
-- to `addIceCandidate`, the newest last, and the tracks that are sent.
pub record Pc : Type 0 where
  pub local_description : Option Sdp
  pub remote_description : Option Sdp
  pub candidates : List String
  pub senders : List String

abbrev pub new_pc : Pc
new_pc = record {
  local_description = none;
  remote_description = none;
  candidates = [];
  senders = [];
}

pub data Target : Type 0 where
  publish subscribe : Target

-- `MediaTrackConstraints` of a shared screen: the largest size, the ratio and the frame rate.
pub record Constraints : Type 0 where
  pub width : Option ℕ
  pub height : Option ℕ
  pub aspect_ratio : Option (ℕ × ℕ)
  pub frame_rate : ℕ

-- The calls of ws.ts.
pub data Frame : Type 0 where
  call_join call_leave : String → Frame
  call_publish_offer call_subscribe_answer : String → Sdp → Frame
  call_track_state : String → TrackKind → Bool → Option (String × String) → Frame
  call_request_keyframe : String → Option String → Frame

pub record Rtc : Type 0 where
  pub channel_id : Option String
  pub publish_pc : Option Pc
  pub subscribe_pc : Option Pc
  pub local_audio_track : Option Track
  pub local_video_track : Option String
  pub local_screen_track : Option String
  pub local_screen_audio_track : Option String
  pub local_audio_sender : Option String
  pub local_video_sender : Option String
  pub local_screen_sender : Option String
  pub local_screen_audio_sender : Option String
  -- whether the browser has audio contexts, and whether one is open
  pub can_audio : Bool
  pub audio_context : Bool
  pub local_analyser : Bool
  -- the gains
  pub remote_audio_nodes : Dict ℕ
  pub remote_screen_audio_nodes : Dict ℕ
  pub remote_analysers : List String
  pub speaker_last_spoke : Dict ℕ
  pub vad_interval : Bool
  pub ping_interval : Bool
  -- `unsubs`: the listeners are registered, with or without the camera
  pub listening : Option Bool
  pub pending_publish_candidates : List String
  pub pending_subscribe_candidates : List String
  pub pending_subscribe_offer : Option Sdp
  pub is_connecting : Bool
  pub voice : Voice MediaStream
  pub user_id : Option String
  -- what `toLocaleTimeString` gives
  pub time : String
  pub sent : List Frame
  pub stopped : List String
  -- what the screen is captured with
  pub asked : List Constraints

abbrev pub to_list : {A : Type 0} → Option A → List A
to_list none = []
to_list (some a) = a ∷ []

unfoldable pub ws_send_call : Frame → Rtc → Rtc
ws_send_call frame r = record r { sent = r.sent ++ frame ∷ [] }

unfoldable pub log : String → Rtc → Rtc
log message r = record r { voice = add_log r.time message r.voice }

unfoldable pub set_voice : Voice MediaStream → Rtc → Rtc
set_voice v r = record r { voice = v }

-- No key at all, for `_setInternalState({ … })` to fill in.
abbrev pub no_change : Internal MediaStream
no_change = record {
  active_channel_id = none;
  is_active = none;
  call_status = none;
  is_muted = none;
  is_deafened = none;
  is_video_enabled = none;
  is_screen_sharing = none;
  local_stream = none;
  local_screen_stream = none;
  spotlight_stream_id = none;
  speaking_users = none;
}

unfoldable pub set_internal : Internal MediaStream → Rtc → Rtc
set_internal p r = record r { voice = set_internal_state p r.voice }

-- From one publisher, or from all.
unfoldable pub request_keyframe : Option String → Rtc → Rtc
unfolding ws_send_call
request_keyframe target r = elim r.channel_id [
  | none ↦ r
  | some c ↦ if c == "" then r else ws_send_call (call_request_keyframe c target) r
]
