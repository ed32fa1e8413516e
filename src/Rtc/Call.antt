-- ===== src/Rtc/Call.antt =====
-- client-web/src/rtc/WebRTCManager.ts: the start and the end of a call.
use Prim.Native.String
use text.Mathlib.Text.{find?}
use nodetalk.Prelude.{
  ℕ, String, Bool, true, false, not, ◌&&◌, ◌||◌, List, [], ◌∷◌, ◌++◌, map, Option, none, some, ◌==◌,
  if◌then◌else◌, length, is_some, is_text, or_default,
}
use nodetalk.Prelude.IdSet
use nodetalk.Voice.{Voice, connecting, connected, update_participants, leave_voice, or_null}
use nodetalk.Voice.Streams.{TrackKind, audio, video, screen}
use nodetalk.Rtc.{
  Rtc, MediaStream, new_pc, call_join, call_leave, call_track_state, ws_send_call, log, set_voice,
  set_internal, no_change,
}
use nodetalk.Rtc.Audio.{
  init_audio_context, setup_local_analyser, stop_ping_monitoring, cleanup_audio,
}
use nodetalk.Rtc.Media.{
  Acquired, acquired, no_track, refused, Offered, create_local_stream, renegotiate_publish,
  with_sender, stop_local_tracks, type_error,
}
use nodetalk.Rtc.Signals.{Answered, Participant, handle_subscribe_offer, set_track_states, roster}

-- The end of a call that has a channel.
unfoldable pub leave_channel : String → Rtc → Rtc
unfolding ws_send_call log set_voice stop_local_tracks stop_ping_monitoring cleanup_audio
leave_channel prev r =
    let s =
      ws_send_call (call_leave prev)
        (record r { channel_id = none; is_connecting = false; pending_subscribe_offer = none }) in
    let t = cleanup_audio (
      stop_ping_monitoring (record (stop_local_tracks (record s { listening = none })) {
        publish_pc = none;
        subscribe_pc = none;
      })) in
    let u = record t { pending_publish_candidates = []; pending_subscribe_candidates = [] } in
    log (String.◌++◌ "[RTC] Left call in channel " prev) (set_voice (leave_voice u.voice) u)

unfoldable pub leave : Rtc → Rtc
unfolding leave_channel
leave r = elim (or_null r.channel_id) [ none ↦ r | some prev ↦ leave_channel prev r ]

abbrev pub with_user : Option String → List String → List String
with_user none members = members
with_user (some me) members =
    if not (me == "") && not (IdSet.has me members) then members ++ me ∷ [] else members

abbrev some_members : List String → Bool
some_members [] = false
some_members (_ ∷ _) = true

unfoldable pub join : String → Bool → Rtc → Rtc
unfolding leave init_audio_context set_internal set_voice log ws_send_call
join channel_id with_camera r =
    let s = record (init_audio_context (leave r)) {
      channel_id = some channel_id;
      is_connecting = true;
      pending_subscribe_offer = none;
    } in
    let members = with_user s.user_id (roster channel_id s) in
    let t =
      set_internal
        (record no_change {
          active_channel_id = some (some channel_id);
          is_active = some true;
          call_status = some connecting;
        })
        s in
    let u =
      if some_members members
      then set_voice (update_participants channel_id members t.voice) t
      else t in
    let v = log (String.◌++◌ "[RTC] Joining call in channel " (String.◌++◌ channel_id "...")) u in
    if r.is_connecting || (is_text r.channel_id channel_id && is_some r.publish_pc)
    then r
    else ws_send_call (call_join channel_id) (record v { listening = some with_camera })

unfoldable pub on_call_error : String → Rtc → Rtc
unfolding log leave
on_call_error error r =
    let s = log (String.◌++◌ "[RTC] Server error: " error) r in
    if is_some (find? error "not a member") || is_some (find? error "call is full")
    then leave s
    else s

pub record Joined : Type 0 where
  pub channel_id : String
  pub ice_servers : List String
  pub participants : List Participant

abbrev default_states : List (TrackKind × Bool)
default_states = (audio, true) ∷ (video, false) ∷ (screen, false) ∷ []

unfoldable pub set_participants : List Participant → Voice MediaStream → Voice MediaStream
unfolding set_track_states
set_participants [] v = v
set_participants (p ∷ ps) v =
    set_participants ps (set_track_states p.user_id (or_default p.track_states default_states) v)

unfoldable pub use_buffered_offer : Answered → Rtc → Rtc
unfolding handle_subscribe_offer
use_buffered_offer answer r = elim r.pending_subscribe_offer [
  | none ↦ r
  | some sdp ↦ handle_subscribe_offer sdp answer (record r { pending_subscribe_offer = none })
]

-- `call_joined` up to the microphone; the number of servers is written by the first argument.
unfoldable pub call_joined_start : (ℕ → String) → Joined → Answered → Rtc → Rtc
unfolding log set_voice set_participants use_buffered_offer
call_joined_start show_number payload answer r =
    let s =
      log
        (String.◌++◌ "[RTC] Received call_joined. Initializing WebRTC with "
          (String.◌++◌ (show_number (length payload.ice_servers)) " ICE server(s)..."))
        r in
    let ids = with_user s.user_id (map (λ p. p.user_id) payload.participants) in
    let v =
      set_participants payload.participants (update_participants payload.channel_id ids s.voice) in
    use_buffered_offer answer
      (record (set_voice v s) { publish_pc = some new_pc; subscribe_pc = some new_pc })

-- After the await of the microphone; `muted` is what the store said when the call was joined.
unfoldable pub call_joined_microphone : Bool → Acquired → Rtc → Rtc
unfolding log ws_send_call setup_local_analyser
call_joined_microphone muted (refused err) r =
    log (String.◌++◌ "[RTC] Failed to acquire microphone: " err) r
call_joined_microphone muted no_track r = r
call_joined_microphone muted (acquired track) r =
    let s = record r { local_audio_track = some (record { id = track; enabled = not muted }) } in
    let t = record s {
      local_audio_sender = some track;
      publish_pc = with_sender track s.publish_pc;
    } in
    let told = elim (or_null t.channel_id) as (λ _. Rtc) [
      | none ↦ t
      | some c ↦ ws_send_call (call_track_state c audio (not muted) none) t
    ] in
    if is_some s.publish_pc
    then setup_local_analyser told
    else log (String.◌++◌ "[RTC] Failed to acquire microphone: " type_error) s

-- After the await of the camera, if it was asked for.
unfoldable pub call_joined_camera : Acquired → Rtc → Rtc
unfolding log set_internal
call_joined_camera (refused err) r = log (String.◌++◌ "[RTC] Failed to acquire camera: " err) r
call_joined_camera no_track r = r
call_joined_camera (acquired track) r =
    let s = record r { local_video_track = some track } in
    if is_some s.publish_pc
    then set_internal (record no_change { is_video_enabled = some true })
        (record s { local_video_sender = some track; publish_pc = with_sender track s.publish_pc })
    else log (String.◌++◌ "[RTC] Failed to acquire camera: " type_error) s

unfoldable pub call_joined_finish : String → Bool → String → Offered → Rtc → Rtc
unfolding create_local_stream set_internal renegotiate_publish ws_send_call
call_joined_finish channel_id muted stream_id answer r =
    let s =
      set_internal
        (record no_change {
          local_stream = some (some (create_local_stream stream_id r));
          call_status = some connected;
        })
        r in
    let t = renegotiate_publish [] answer (record s { vad_interval = true }) in
    let u = ws_send_call (call_track_state channel_id audio (not muted) none) t in
    if is_some u.local_video_track
    then ws_send_call (call_track_state channel_id video true none) u
    else u

-- What the browser answers while a call is joined.
pub record Answers : Type 0 where
  pub show_number : ℕ → String
  pub offer : Answered
  pub microphone : Acquired
  pub camera : Acquired
  pub stream_id : String
  pub published : Offered

-- The whole handler, when nothing comes in between.
unfoldable pub on_call_joined : Joined → Answers → Rtc → Rtc
unfolding call_joined_start call_joined_microphone call_joined_camera call_joined_finish
on_call_joined payload b r =
    let muted = r.voice.is_muted in
    let s =
      call_joined_microphone muted b.microphone
        (call_joined_start b.show_number payload b.offer r) in
    let t = elim r.listening as (λ _. Rtc) [ some true ↦ call_joined_camera b.camera s | _ ↦ s ] in
    if not (is_text r.channel_id payload.channel_id)
    then r
    else call_joined_finish payload.channel_id muted b.stream_id b.published t
