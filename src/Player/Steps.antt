-- ===== src/Player/Steps.antt =====
-- Everything that can happen to the voice player, as data: the calls of its operations, the ends of
-- their awaits, the events of the audio element and the frames that run, unless they were cancelled.
use nodetalk.Prelude.{ℕ, Bool, List, [], ◌∷◌, Option, nat_beq, any, if◌then◌else◌}
use nodetalk.Audio.{AudioBuffer}
use nodetalk.Player.{
  VoiceTrack, RepeatMode, Player, subscribe, unsubscribe, tick, on_play, on_pause, on_ended,
  on_rate_change, on_volume_change,
}
use nodetalk.Player.Playback.{
  play_start, use_url, decoded, ready_to_play, play_failed, pause, toggle_play, seek, set_speed,
  cycle_speed, set_volume, set_repeat_mode, cycle_repeat, close,
}

pub data Step : Type 0 where
  subscribes unsubscribes : ℕ → Step
  plays : VoiceTrack → Step
  finds_url : ℕ → Bool → Step
  decodes : VoiceTrack → AudioBuffer → Bool → Step
  gets_ready : ℕ → Step
  fails pauses closes cycles_speed cycles_repeat : Step
  toggles : Bool → Step
  seeks : ℕ → Option ℕ → Step
  sets_speed sets_volume : ℕ → Step
  sets_repeat : RepeatMode → Step
  played ended : Step
  paused rate_changed volume_changed : ℕ → Step
  frame_runs : ℕ → Bool → Bool → ℕ → Step

unfoldable pub take : Step → Player → Player
take (subscribes fn) p = subscribe fn p
take (unsubscribes fn) p = unsubscribe fn p
take (plays track) p = (play_start track p).0
take (finds_url url ready) p = use_url url ready p
take (decodes track buffer ready) p = decoded track buffer ready p
take (gets_ready duration) p = ready_to_play duration p
take fails p = play_failed p
take pauses p = pause p
take closes p = close p
take cycles_speed p = cycle_speed p
take cycles_repeat p = cycle_repeat p
take (toggles is_paused) p = (toggle_play is_paused p).0
take (seeks percent duration) p = seek percent duration p
take (sets_speed speed) p = set_speed speed p
take (sets_volume volume) p = set_volume volume p
take (sets_repeat mode) p = set_repeat_mode mode p
take played p = on_play p
take ended p = on_ended p
take (paused time) p = on_pause time p
take (rate_changed rate) p = on_rate_change rate p
take (volume_changed volume) p = on_volume_change volume p
take (frame_runs id is_paused has_ended time) p =
    if any (λ f. nat_beq f id) p.frames then tick id is_paused has_ended time p else p

unfoldable pub take_all : List Step → Player → Player
unfolding take
take_all [] p = p
take_all (step ∷ steps) p = take_all steps (take step p)
