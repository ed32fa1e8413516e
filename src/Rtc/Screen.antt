-- ===== src/Rtc/Screen.antt =====
-- client-web/src/rtc/WebRTCManager.ts: sharing the screen.
use Prim.Native.String
use nodetalk.Prelude.{
  ℕ, String, true, false, [], ◌∷◌, ◌++◌, Option, none, some, if◌then◌else◌, is_some, is_text,
}
use nodetalk.Voice.{
  ScreenShareSettings, Resolution, source_size, p720, p1080, p1440, FrameRate, fps15, fps30, fps60,
  AspectRatio, source_ratio, wide, standard,
}
use nodetalk.Voice.Streams.{SettingsChange, set_screen_share_settings, screen}
use nodetalk.Rtc.{
  Rtc, Constraints, call_track_state, ws_send_call, log, set_internal, set_voice, no_change,
  to_list,
}
use nodetalk.Rtc.Media.{
  Offered, publishing, renegotiate_publish, type_error, without_sender, with_sender,
}

-- What the browser answers when it is asked for a screen: the video track, its stream, and the audio track.
pub data Shared : Type 0 where
  shared : String → String → Option String → Shared
  no_screen : Shared
  cancelled : String → Shared

abbrev max_size : Resolution → Option (ℕ × ℕ)
max_size source_size = none
max_size p720 = some (1280, 720)
max_size p1080 = some (1920, 1080)
max_size p1440 = some (2560, 1440)

abbrev fst? : Option (ℕ × ℕ) → Option ℕ
fst? none = none
fst? (some (w, h)) = some w

abbrev snd? : Option (ℕ × ℕ) → Option ℕ
snd? none = none
snd? (some (w, h)) = some h

abbrev ratio : AspectRatio → Option (ℕ × ℕ)
ratio source_ratio = none
ratio wide = some (16, 9)
ratio standard = some (4, 3)

abbrev fps : FrameRate → ℕ
fps fps15 = 15
fps fps30 = 30
fps fps60 = 60

unfoldable pub screen_constraints : ScreenShareSettings → Constraints
screen_constraints s = record {
  width = fst? (max_size s.resolution);
  height = snd? (max_size s.resolution);
  aspect_ratio = ratio s.aspect_ratio;
  frame_rate = fps s.frame_rate;
}

unfoldable pub screen_off : Offered → Rtc → Rtc
unfolding set_internal ws_send_call renegotiate_publish
screen_off answer r =
    let s = record r {
      publish_pc =
          without_sender r.local_screen_audio_sender
            (without_sender r.local_screen_sender r.publish_pc);
      local_screen_sender = none;
      local_screen_audio_sender = none;
      local_screen_track = none;
      local_screen_audio_track = none;
      stopped = r.stopped ++ to_list r.local_screen_track ++ to_list r.local_screen_audio_track;
    } in
    let t =
      set_internal
        (record no_change {
          is_screen_sharing = some false;
          local_screen_stream = some none;
          spotlight_stream_id = some (
              if is_text r.voice.spotlight_stream_id "local"
              then none
              else r.voice.spotlight_stream_id);
        })
        s in
    elim r.channel_id [
      | none ↦ t
      | some c ↦
          renegotiate_publish [] answer (ws_send_call (call_track_state c screen false none) t)
    ]

unfoldable pub save_settings : Option SettingsChange → Rtc → Rtc
unfolding set_voice
save_settings none r = r
save_settings (some change) r = set_voice (set_screen_share_settings change r.voice) r

unfoldable pub use_settings : Option SettingsChange → Rtc → Rtc
unfolding save_settings screen_constraints
use_settings change r =
    let s = save_settings change r in
    record s { asked = s.asked ++ screen_constraints s.voice.screen_share_settings ∷ [] }

-- After the await of the screen.
unfoldable pub screen_on : Shared → Offered → Rtc → Rtc
unfolding set_internal ws_send_call renegotiate_publish log
screen_on (cancelled err) answer r =
    log (String.◌++◌ "[RTC] Screen sharing cancelled or failed: " err) r
screen_on no_screen answer r = r
screen_on (shared track stream audio) answer r =
    let s = record r { local_screen_track = some track } in
    elim (publishing s) [
      | none ↦ log (String.◌++◌ "[RTC] Screen sharing cancelled or failed: " type_error) s
      | some (c, pc) ↦
          let with_video = with_sender track s.publish_pc in
          renegotiate_publish (track ∷ to_list audio) answer (
            ws_send_call (call_track_state c screen true (some (track, stream))) (
              set_internal
                (record no_change {
                  is_screen_sharing = some true;
                  local_screen_stream =
                      some (some (record { id = stream; tracks = track ∷ to_list audio }));
                  spotlight_stream_id = some (some "local");
                })
                (record s {
                  local_screen_sender = some track;
                  local_screen_audio_track = elim audio [
                    | none ↦ s.local_screen_audio_track
                    | some a ↦ some a
                  ];
                  local_screen_audio_sender = elim audio [
                    | none ↦ s.local_screen_audio_sender
                    | some a ↦ some a
                  ];
                  publish_pc = elim audio [ none ↦ with_video | some a ↦ with_sender a with_video ];
                })))
    ]

unfoldable pub toggle_screen_share : Option SettingsChange → Shared → Offered → Rtc → Rtc
unfolding screen_off screen_on use_settings
toggle_screen_share change picked answer r =
    if is_some (publishing r)
    then if r.voice.is_screen_sharing
      then screen_off answer r
      else screen_on picked answer (use_settings change r)
    else r

-- `none` where the track takes the constraints, and the error where it does not.
pub apply_screen_share_constraints : SettingsChange → Option String → String → Rtc → Rtc
unfolding set_voice log screen_constraints
apply_screen_share_constraints change error summary r =
    let s = set_voice (set_screen_share_settings change r.voice) r in
    elim s.local_screen_track [
      | none ↦ s
      | some _ ↦
          let t = record s {
            asked = s.asked ++ screen_constraints s.voice.screen_share_settings ∷ [];
          } in
          elim error [
            | none ↦ log (String.◌++◌ "[RTC] Screen share constraints updated: " summary) t
            | some err ↦ log (String.◌++◌ "[RTC] Failed to apply screen constraints: " err) t
          ]
    ]
