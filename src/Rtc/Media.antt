-- ===== src/Rtc/Media.antt =====
-- client-web/src/rtc/WebRTCManager.ts: the camera, and the offers that announce what is sent.
-- The browser answers an offer that is made at once.
use Prim.Native.String
use text.Mathlib.Text.{starts_with, find?}
use nodetalk.Prelude.{
  String, true, false, ◌&&◌, List, [], ◌∷◌, ◌++◌, map, filter, not, Option, none, some, ◌==◌,
  if◌then◌else◌, is_some,
}
use nodetalk.Voice.{or_null}
use nodetalk.Voice.Streams.{video}
use nodetalk.Rtc.{
  Rtc, MediaStream, Track, Pc, Sdp, call_publish_offer, call_track_state, ws_send_call, log,
  set_internal, no_change, to_list,
}

-- What the browser answers when it is asked for a camera or a microphone.
pub data Acquired : Type 0 where
  acquired : String → Acquired
  no_track : Acquired
  refused : String → Acquired

pub data Offered : Type 0 where
  offered : Sdp → Offered
  offer_failed : String → Offered

-- The line of the first of these tracks that it names.
unfoldable pub munge_line : List String → String → String
munge_line [] line = line
munge_line (id ∷ ids) line =
    let rest = munge_line ids line in
    if starts_with line "a=msid:" && is_some (find? line id)
    then String.◌++◌ "a=msid:screen " id
    else rest

unfoldable pub munge : List String → Sdp → Sdp
unfolding munge_line
munge ids sdp = record sdp { lines = map (munge_line ids) sdp.lines }

-- `this.channelId` when it names a channel, with the publishing connection.
abbrev pub publishing : Rtc → Option (String × Pc)
publishing r = elim (or_null r.channel_id) [
  | none ↦ none
  | some c ↦ elim r.publish_pc [ none ↦ none | some pc ↦ some (c, pc) ]
]

unfoldable pub renegotiate_publish : List String → Offered → Rtc → Rtc
unfolding munge ws_send_call log
renegotiate_publish ids answer r = elim (publishing r) [
  | none ↦ r
  | some (c, pc) ↦ elim answer [
    | offer_failed err ↦ log (String.◌++◌ "[RTC] Renegotiate publish error: " err) r
    | offered sdp ↦
        ws_send_call (call_publish_offer c (munge ids sdp))
          (record r { publish_pc = some (record pc { local_description = some sdp }) })
  ]
]

-- What `this.publishPC.addTrack` throws when there is no connection any more.
abbrev pub type_error : String
type_error = "TypeError: Cannot read properties of null (reading 'addTrack')"

abbrev pub track_ids : Option Track → List String
track_ids none = []
track_ids (some t) = t.id ∷ []

-- The new stream has this id.
unfoldable pub create_local_stream : String → Rtc → MediaStream
create_local_stream id r = record {
  id = id;
  tracks = track_ids r.local_audio_track ++ to_list r.local_video_track;
}

abbrev pub without_sender : Option String → Option Pc → Option Pc
without_sender sender none = none
without_sender none (some pc) = some pc
without_sender (some id) (some pc) =
    some (record pc { senders = filter (λ s. not (s == id)) pc.senders })

-- `addTrack`; without a connection it throws.
abbrev pub with_sender : String → Option Pc → Option Pc
with_sender id none = none
with_sender id (some pc) = some (record pc { senders = pc.senders ++ id ∷ [] })

unfoldable pub video_off : String → Offered → Rtc → Rtc
unfolding create_local_stream set_internal ws_send_call renegotiate_publish
video_off stream_id answer r =
    let s = record r {
      publish_pc = without_sender r.local_video_sender r.publish_pc;
      local_video_sender = none;
      local_video_track = none;
      stopped = r.stopped ++ to_list r.local_video_track;
    } in
    let t =
      set_internal
        (record no_change {
          is_video_enabled = some false;
          local_stream = some (some (create_local_stream stream_id s));
        })
        s in
    elim r.channel_id [
      | none ↦ t
      | some c ↦
          renegotiate_publish [] answer (ws_send_call (call_track_state c video false none) t)
    ]

-- After the await of the camera.
unfoldable pub video_on : Acquired → String → Offered → Rtc → Rtc
unfolding create_local_stream set_internal ws_send_call renegotiate_publish log
video_on (refused err) stream_id answer r =
    log (String.◌++◌ "[RTC] Failed to access camera: " err) r
video_on no_track stream_id answer r = r
video_on (acquired track) stream_id answer r =
    let s = record r { local_video_track = some track } in
    let stream = create_local_stream stream_id s in
    elim (publishing s) [
      | none ↦ log (String.◌++◌ "[RTC] Failed to access camera: " type_error) s
      | some (c, pc) ↦ renegotiate_publish [] answer (
          ws_send_call (call_track_state c video true none) (
            set_internal
              (record no_change { is_video_enabled = some true; local_stream = some (some stream) })
              (record s {
                local_video_sender = some track;
                publish_pc = with_sender track s.publish_pc;
              })))
    ]

unfoldable pub toggle_video : Acquired → String → Offered → Rtc → Rtc
unfolding video_off video_on
toggle_video camera stream_id answer r =
    if is_some (publishing r)
    then if r.voice.is_video_enabled
      then video_off stream_id answer r
      else video_on camera stream_id answer r
    else r

unfoldable pub stop_local_tracks : Rtc → Rtc
stop_local_tracks r = record r {
  publish_pc =
      without_sender r.local_screen_audio_sender (without_sender r.local_audio_sender r.publish_pc);
  local_audio_track = none;
  local_video_track = none;
  local_screen_track = none;
  local_screen_audio_track = none;
  local_audio_sender = none;
  local_video_sender = none;
  local_screen_sender = none;
  local_screen_audio_sender = none;
  local_analyser = false;
  stopped =
      r.stopped
      ++ track_ids r.local_audio_track
      ++ to_list r.local_video_track
      ++ to_list r.local_screen_track
      ++ to_list r.local_screen_audio_track;
}
