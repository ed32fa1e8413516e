-- ===== src/Rtc/Signals.antt =====
-- client-web/src/rtc/WebRTCManager.ts: the messages of the server while a call lasts. The browser
-- answers a description that is set at once.
use Prim.Native.String
use nodetalk.Prelude.{
  String, Bool, false, not, ◌&&◌, ◌||◌, List, [], ◌∷◌, ◌++◌, Option, none, some, ◌==◌,
  if◌then◌else◌, filter, is_some, is_text, or_default,
}
use nodetalk.Prelude.Dict
use nodetalk.Prelude.IdSet
use nodetalk.Voice.{Voice, update_participants, or_null}
use nodetalk.Voice.Streams.{TrackKind, screen, set_track_state, remove_remote_stream}
use nodetalk.Rtc.{
  Rtc, MediaStream, Pc, Sdp, Target, publish, subscribe, call_subscribe_answer, ws_send_call, log,
  set_voice, request_keyframe,
}
use nodetalk.Rtc.Audio.{remove_remote_audio}

-- What becomes of a description of the server, and of the answer to it.
pub data Answered : Type 0 where
  answered : Sdp → Answered
  refused answer_failed : String → Answered

-- `payload.channel_id === this.channelId`
abbrev pub is_for : String → Rtc → Bool
is_for channel_id r = is_text r.channel_id channel_id

unfoldable pub flush_pending_candidates : List String → Pc → Pc
flush_pending_candidates queue pc = record pc { candidates = pc.candidates ++ queue }

unfoldable pub on_call_publish_answer : String → Sdp → Option String → Rtc → Rtc
unfolding flush_pending_candidates log
on_call_publish_answer channel_id sdp error r =
    if not (is_for channel_id r) then r else elim r.publish_pc [
      | none ↦ r
      | some pc ↦ elim error [
        | some err ↦ log (String.◌++◌ "[RTC] setRemoteDescription error on publishPC: " err) r
        | none ↦ record r {
          publish_pc = some (
              flush_pending_candidates r.pending_publish_candidates
                (record pc { remote_description = some sdp }));
          pending_publish_candidates = [];
        }
      ]
    ]

-- The server's offer set, and the candidates that waited for it handed on.
unfoldable pub accept_offer : Sdp → Pc → Rtc → Rtc
unfolding flush_pending_candidates
accept_offer sdp pc r = record r {
  subscribe_pc = some (
      flush_pending_candidates r.pending_subscribe_candidates
        (record pc { remote_description = some sdp }));
  pending_subscribe_candidates = [];
}

abbrev with_local : Sdp → Option Pc → Option Pc
with_local sdp none = none
with_local sdp (some pc) = some (record pc { local_description = some sdp })

unfoldable pub handle_subscribe_offer : Sdp → Answered → Rtc → Rtc
unfolding accept_offer log ws_send_call
handle_subscribe_offer sdp (refused err) r =
    if is_some r.subscribe_pc && is_some (or_null r.channel_id)
    then log (String.◌++◌ "[RTC] Error handling subscribe offer: " err) r
    else r
handle_subscribe_offer sdp (answer_failed err) r = elim r.subscribe_pc [
  | none ↦ r
  | some pc ↦ elim (or_null r.channel_id) [
    | none ↦ r
    | some c ↦
        log (String.◌++◌ "[RTC] Error handling subscribe offer: " err) (accept_offer sdp pc r)
  ]
]
handle_subscribe_offer sdp (answered answer) r = elim r.subscribe_pc [
  | none ↦ r
  | some pc ↦ elim (or_null r.channel_id) [
    | none ↦ r
    | some c ↦
        let s = accept_offer sdp pc r in
        ws_send_call (call_subscribe_answer c answer)
          (record s { subscribe_pc = with_local answer s.subscribe_pc })
  ]
]

unfoldable pub on_call_subscribe_offer : String → Sdp → Answered → Rtc → Rtc
unfolding log handle_subscribe_offer
on_call_subscribe_offer channel_id sdp answer r =
    if not (is_for channel_id r)
    then r
    else if is_some r.subscribe_pc
    then handle_subscribe_offer sdp answer r
    else record (log "[RTC] Buffering early subscribe offer before subscribePC is ready" r) {
      pending_subscribe_offer = some sdp;
    }

abbrev pub has_remote : Option Pc → Bool
has_remote none = false
has_remote (some pc) = is_some pc.remote_description

abbrev pub with_candidate : String → Option Pc → Option Pc
with_candidate candidate none = none
with_candidate candidate (some pc) =
    some (record pc { candidates = pc.candidates ++ candidate ∷ [] })

unfoldable pub on_call_ice_candidate : String → Target → String → Rtc → Rtc
on_call_ice_candidate channel_id publish candidate r =
    if not (is_for channel_id r)
    then r
    else if has_remote r.publish_pc
    then record r { publish_pc = with_candidate candidate r.publish_pc }
    else record r { pending_publish_candidates = r.pending_publish_candidates ++ candidate ∷ [] }
on_call_ice_candidate channel_id subscribe candidate r =
    if not (is_for channel_id r)
    then r
    else if has_remote r.subscribe_pc
    then record r { subscribe_pc = with_candidate candidate r.subscribe_pc }
    else record r {
      pending_subscribe_candidates = r.pending_subscribe_candidates ++ candidate ∷ [];
    }

-- The second request, 300 ms later, is another `request_keyframe`.
unfoldable pub on_call_track_state : String → String → TrackKind → Bool → Rtc → Rtc
unfolding set_voice request_keyframe
on_call_track_state channel_id user_id kind enabled r =
    if not (is_for channel_id r) || user_id == ""
    then r
    else let s = set_voice (set_track_state user_id kind enabled r.voice) r in
      let asked = request_keyframe (some user_id) s in
      elim kind as (λ _. Rtc) [ screen ↦ if enabled then asked else s | _ ↦ s ]

pub record Participant : Type 0 where
  pub user_id : String
  pub track_states : Option (List (TrackKind × Bool))

unfoldable pub set_track_states :
    String → List (TrackKind × Bool) → Voice MediaStream → Voice MediaStream
set_track_states user_id [] v = v
set_track_states user_id ((kind, enabled) ∷ states) v =
    set_track_states user_id states (set_track_state user_id kind enabled v)

abbrev pub roster : String → Rtc → List String
roster channel_id r = or_default (Dict.lookup channel_id r.voice.participants) []

unfoldable pub on_call_participant_joined : String → Participant → Rtc → Rtc
unfolding set_voice set_track_states
on_call_participant_joined channel_id p r =
    if not (is_for channel_id r)
    then r
    else let current = roster channel_id r in
      let v =
        if IdSet.has p.user_id current
        then r.voice
        else update_participants channel_id (current ++ p.user_id ∷ []) r.voice in
      set_voice (set_track_states p.user_id (or_default p.track_states []) v) r

unfoldable pub on_call_participant_left : String → Participant → Rtc → Rtc
unfolding set_voice remove_remote_audio
on_call_participant_left channel_id p r =
    if not (is_for channel_id r)
    then r
    else let others = filter (λ id. not (id == p.user_id)) (roster channel_id r) in
      remove_remote_audio p.user_id (
        set_voice (remove_remote_stream p.user_id (update_participants channel_id others r.voice))
          r)
