-- ===== src/Rtc/Switching.antt =====
-- A second call while one goes on.
use nodetalk.Prelude.{
  ℕ, ◌≡◌, refl, ◌∙◌, String, Bool, true, false, not, List, [], ◌∷◌, Option, none, some, arith,
  if◌then◌else◌, is_some, is_text, Bool-cases, inl, inr,
}
use nodetalk.Rtc.{Rtc, ws_send_call, log, set_voice, set_internal}
use nodetalk.Rtc.Audio.{
  init_audio_context, stop_ping_monitoring, cleanup_audio, toggle_deafen, toggle_mute,
  setup_local_analyser,
}
use nodetalk.Rtc.Media.{
  Acquired, acquired, no_track, refused, Offered, stop_local_tracks, renegotiate_publish,
  toggle_video, video_on, video_off,
}
use nodetalk.Rtc.Signals.{
  Answered, on_call_publish_answer, on_call_subscribe_offer, handle_subscribe_offer, accept_offer,
  on_call_ice_candidate,
}
use nodetalk.Rtc.Candidates.{Signal, receive}
use nodetalk.Rtc.Call.{
  Joined, Answers, leave_channel, leave, join, on_call_error, use_buffered_offer, call_joined_start,
  call_joined_microphone, call_joined_camera, call_joined_finish, on_call_joined,
}

pub data Step : Type 0 where
  joins : String → Bool → Step
  leaves : Step
  errors : String → Step
  signals : Signal → Step
  call_joins : Joined → Answers → Step
  mutes deafens : Step
  videos : Acquired → String → Offered → Step

unfoldable pub take : Step → Rtc → Rtc
take (joins channel_id with_camera) r = join channel_id with_camera r
take leaves r = leave r
take (errors error) r = on_call_error error r
take (signals s) r = receive s r
take (call_joins payload answers) r = on_call_joined payload answers r
take mutes r = toggle_mute r
take deafens r = toggle_deafen r
take (videos camera stream_id answer) r = toggle_video camera stream_id answer r

unfoldable pub take_all : List Step → Rtc → Rtc
unfolding take
take_all [] r = r
take_all (s ∷ steps) r = take_all steps (take s r)

-- `isConnecting` is set all the time that there is a channel, not only while the call is set up.
abbrev pub IsBusy : Rtc → Type 0
IsBusy r = r.is_connecting ≡ is_some r.channel_id

leave-IsBusy : (r : Rtc) → IsBusy r → IsBusy (leave r)
unfolding leave leave_channel ws_send_call log set_voice stop_local_tracks stop_ping_monitoring
    cleanup_audio
leave-IsBusy r v = ground (arith, v)

join-IsBusy : (c : String) (b : Bool) (r : Rtc) → IsBusy r → IsBusy (join c b r)
unfolding join init_audio_context set_internal set_voice log ws_send_call
join-IsBusy c b r v = ground (arith, v)

error-IsBusy : (e : String) (r : Rtc) → IsBusy r → IsBusy (on_call_error e r)
unfolding on_call_error log
error-IsBusy e r v = ground (arith, v, leave-IsBusy _ v)

receive-IsBusy : (s : Signal) (r : Rtc) → IsBusy r → IsBusy (receive s r)
unfolding receive on_call_publish_answer on_call_subscribe_offer handle_subscribe_offer accept_offer
    on_call_ice_candidate ws_send_call log
receive-IsBusy s r v = ground (arith, v)

mute-IsBusy : (r : Rtc) → IsBusy r → IsBusy (toggle_mute r)
unfolding toggle_mute set_internal ws_send_call
mute-IsBusy r v = ground (arith, v)

renegotiate-IsBusy :
    (ids : List String) (answer : Offered) (r : Rtc)
    → IsBusy r
    → IsBusy (renegotiate_publish ids answer r)
unfolding renegotiate_publish ws_send_call log
renegotiate-IsBusy ids answer r v = ground (arith, v)

video-IsBusy :
    (camera : Acquired) (id : String) (answer : Offered) (r : Rtc)
    → IsBusy r
    → IsBusy (toggle_video camera id answer r)
unfolding toggle_video video_on video_off set_internal ws_send_call log renegotiate_publish
video-IsBusy (acquired track) id answer r v = ground (arith, v)
video-IsBusy no_track id answer r v = ground (arith, v)
video-IsBusy (refused err) id answer r v = ground (arith, v)

start-IsBusy :
    (show_number : ℕ → String) (payload : Joined) (answer : Answered) (r : Rtc)
    → IsBusy r
    → IsBusy (call_joined_start show_number payload answer r)
unfolding call_joined_start use_buffered_offer handle_subscribe_offer accept_offer log set_voice
    ws_send_call
start-IsBusy show_number payload answer r v = ground (arith, v)

microphone-IsBusy :
    (muted : Bool) (a : Acquired) (r : Rtc) → IsBusy r → IsBusy (call_joined_microphone muted a r)
unfolding call_joined_microphone log ws_send_call setup_local_analyser init_audio_context
microphone-IsBusy muted (acquired track) r v = ground (arith, v)
microphone-IsBusy muted no_track r v = v
microphone-IsBusy muted (refused err) r v = v

camera-IsBusy : (a : Acquired) (r : Rtc) → IsBusy r → IsBusy (call_joined_camera a r)
unfolding call_joined_camera log set_internal
camera-IsBusy (acquired track) r v = ground (arith, v)
camera-IsBusy no_track r v = v
camera-IsBusy (refused err) r v = v

finish-IsBusy :
    (c : String) (muted : Bool) (id : String) (answer : Offered) (r : Rtc)
    → IsBusy r
    → IsBusy (call_joined_finish c muted id answer r)
unfolding call_joined_finish set_internal renegotiate_publish ws_send_call log
finish-IsBusy c muted id answer r v = ground (arith, v)

if-IsBusy : (b : Bool) (r s : Rtc) → IsBusy r → IsBusy s → IsBusy (if b then r else s)
if-IsBusy true r s v w = v
if-IsBusy false r s v w = w

-- Where the call was started with the camera.
abbrev asked_for : Option Bool → Rtc → Rtc → Rtc
asked_for o r s = elim o as (λ _. Rtc) [ some true ↦ s | _ ↦ r ]

asked_for-IsBusy : (o : Option Bool) (r s : Rtc) → IsBusy r → IsBusy s → IsBusy (asked_for o r s)
asked_for-IsBusy none r s v w = v
asked_for-IsBusy (some true) r s v w = w
asked_for-IsBusy (some false) r s v w = v

joined-IsBusy :
    (payload : Joined) (b : Answers) (r : Rtc) → IsBusy r → IsBusy (on_call_joined payload b r)
unfolding on_call_joined
joined-IsBusy payload b r v =
    let muted = r.voice.is_muted in
    let started = call_joined_start b.show_number payload b.offer r in
    let asked = call_joined_microphone muted b.microphone started in
    let w =
      microphone-IsBusy muted b.microphone started
        (start-IsBusy b.show_number payload b.offer r v) in
    let shown = asked_for r.listening asked (call_joined_camera b.camera asked) in
    if-IsBusy (not (is_text r.channel_id payload.channel_id)) r
      (call_joined_finish payload.channel_id muted b.stream_id b.published shown) v
      (finish-IsBusy payload.channel_id muted b.stream_id b.published shown (
        asked_for-IsBusy r.listening asked (call_joined_camera b.camera asked) w
          (camera-IsBusy b.camera asked w)))

take-IsBusy : (s : Step) (r : Rtc) → IsBusy r → IsBusy (take s r)
unfolding take toggle_deafen set_internal
take-IsBusy (joins c b) r v = join-IsBusy c b r v
take-IsBusy leaves r v = leave-IsBusy r v
take-IsBusy (errors e) r v = error-IsBusy e r v
take-IsBusy (signals s) r v = receive-IsBusy s r v
take-IsBusy (call_joins payload b) r v = joined-IsBusy payload b r v
take-IsBusy mutes r v = mute-IsBusy r v
take-IsBusy deafens r v = v
take-IsBusy (videos camera id answer) r v = video-IsBusy camera id answer r v

take_all-IsBusy : (steps : List Step) (r : Rtc) → IsBusy r → IsBusy (take_all steps r)
unfolding take_all
take_all-IsBusy [] r v = v
take_all-IsBusy (s ∷ steps) r v = take_all-IsBusy steps (take s r) (take-IsBusy s r v)

busy_join : (d : String) (b : Bool) (r : Rtc) → r.is_connecting ≡ true → join d b r ≡ r
unfolding join
busy_join d b r h = rw h refl

-- Whatever happened since a manager without a call was made: while it has a channel, joining any
-- channel, also another one, does nothing; the user has to leave the call first.
pub join_in_call_ignored :
    (steps : List Step) (r : Rtc) (d : String) (with_camera : Bool)
    → r.is_connecting ≡ is_some r.channel_id
    → let t = take_all steps r in
      if is_some t.channel_id then join d with_camera t ≡ t else t.is_connecting ≡ false
join_in_call_ignored steps r d with_camera v =
    let t = take_all steps r in
    let busy : t.is_connecting ≡ is_some t.channel_id = take_all-IsBusy steps r v in
    elim (Bool-cases (is_some t.channel_id)) [
      | inl e ↦ rw e (busy_join d with_camera t (busy ∙ e))
      | inr e ↦ rw e (busy ∙ e)
    ]
