-- ===== src/Player/Tests.antt =====
-- The theorems on the voice player at concrete tracks.
use nodetalk.Prelude.{◌≡◌, ◌≢◌, ◌⊎◌, refl, true, false, List, [], ◌∷◌, none, some, nat_beq, any}
use nodetalk.Audio.{positive, AudioBuffer}
use nodetalk.Player.{
  VoiceTrack, no_repeat, object_url, Player, voice_player, tick, on_pause, on_ended,
}
use nodetalk.Player.Playback.{close}
use nodetalk.Player.Steps.{Step, plays, decodes, gets_ready, played, frame_runs, toggles, take_all}
use nodetalk.Player.Frames.{HasOneFrame, one_frame, frames_end}

abbrev first : VoiceTrack
first = record {
  file_id = "a";
  channel_id = "c";
  mime = "audio/webm";
  nonce = "n";
  waveform = none;
  label = none;
}

abbrev sound : AudioBuffer
sound = record { sample_rate = 8000; length = 1; channels = (positive 5 ∷ []) ∷ [] }

abbrev steps : List Step
steps =
    plays first
    ∷ decodes first sound true
    ∷ gets_ready 4000
    ∷ played
    ∷ frame_runs 1 false false 20
    ∷ played
    ∷ toggles false
    ∷ []

one_frame_example : HasOneFrame (take_all steps voice_player)
one_frame_example = one_frame steps

frames_end_example :
    let p = take_all steps voice_player in
    ((on_pause 40 p).frames ≡ [])
    × ((p.state.repeat_mode ≢ no_repeat) ⊎ ((on_ended p).frames ≡ []))
    × ((close p).frames ≡ [])
    × ((any (λ f. nat_beq f 3) p.frames ≡ false) ⊎ ((tick 3 true false 40 p).frames ≡ []))
frames_end_example = frames_end steps 40 3 true false refl

abbrev loaded : Player
loaded = record voice_player {
  audio = record voice_player.audio { src = object_url 4 };
  state = record voice_player.state { track = some first; duration = 3000 };
}
