-- ===== src/Rtc/Tracks.antt =====
-- client-web/src/rtc/WebRTCManager.ts: the tracks that come in from others.
use Prim.Native.String
use text.Mathlib.Text.{find?}
use nodetalk.Prelude.{
  String, Bool, true, not, ◌&&◌, ◌||◌, Option, none, some, ◌==◌, if◌then◌else◌, is_some, is_text,
  or_default, find,
}
use nodetalk.Voice.{Voice, TrackState, or_null}
use nodetalk.Voice.Streams.{
  screen, first_key, set_track_state, set_remote_stream, set_remote_screen_stream,
}
use nodetalk.Rtc.{Rtc, MediaStream, log, set_voice, request_keyframe}
use nodetalk.Rtc.Audio.{attach_remote_audio, attach_remote_screen_audio}

-- `streamId.split(':screen')[0]`, where it has that part.
abbrev before_screen : String → Option String
before_screen stream_id = elim (find? stream_id ":screen") [
  | none ↦ none
  | some i ↦ some (String.slice stream_id 0 i)
]

abbrev shares_screen : Option String → String × TrackState → Bool
shares_screen user (uid, t) = not (is_text user uid) && t.screen

abbrev key_of : Option (String × TrackState) → Option String
key_of none = none
key_of (some (uid, t)) = some uid

-- Whose screen a track shows, by the store as it was when the call was joined.
pub publisher_of : Option String → Voice MediaStream → String → String
unfolding first_key
publisher_of user v stream_id =
    let named = or_default (before_screen stream_id) "" in
    if not (named == "") && not (named == "screen")
    then named
    else elim (or_null (key_of (find (shares_screen user) v.participant_track_states))) [
      | some uid ↦ uid
      | none ↦ elim (or_null v.active_presenter_id) [
        | some uid ↦ uid
        | none ↦ elim (or_null (first_key v.remote_streams)) [ some uid ↦ uid | none ↦ "screen" ]
      ]
    ]

-- `ontrack`, with that store, whether the track is video, and its stream.
pub on_track : Voice MediaStream → Bool → Bool → MediaStream → Rtc → Rtc
unfolding log set_voice request_keyframe attach_remote_audio attach_remote_screen_audio publisher_of
on_track snapshot is_video has_source stream r =
    let s =
      log
        (String.◌++◌ "[RTC] Inbound track: kind=" (
          String.◌++◌ (if is_video then "video" else "audio")
            (String.◌++◌ ", streamId=" stream.id)))
        r in
    let from = publisher_of s.user_id snapshot stream.id in
    if is_some (before_screen stream.id) || stream.id == "screen"
    then if is_video
      then request_keyframe (some from) (
          set_voice
            (set_track_state from screen true (set_remote_screen_stream from (some stream) s.voice))
            s)
      else attach_remote_screen_audio has_source from s
    else if stream.id == ""
    then s
    else let t = set_voice (set_remote_stream stream.id stream s.voice) s in
      if is_video
      then request_keyframe (some stream.id) t
      else attach_remote_audio has_source stream.id t
