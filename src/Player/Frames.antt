-- ===== src/Player/Frames.antt =====
-- The animation frames that show the time of the track: one at most, and none once the audio stands
-- still.
use nodetalk.Prelude.{
  ℕ, ◌≡◌, ◌≢◌, ◌⊎◌, refl, Bool, true, false, not, List, [], ◌∷◌, Option, none, some, arith, nat_beq,
  filter, any, ◌&&◌, ◌||◌, Bool-cases, Option-cases, inl, inr,
}
use nodetalk.Audio.{AudioBuffer}
use nodetalk.Player.{
  VoiceTrack, RepeatMode, no_repeat, once, repeat_all, Player, voice_player, subscribe, unsubscribe,
  cancel_frame, start_raf, stop_raf, tick, on_play, on_pause, on_ended, on_rate_change,
  on_volume_change,
}
use nodetalk.Player.Playback.{
  is_track, has_src, play_start, use_url, decoded, ready_to_play, play_failed, pause, toggle_play,
  seek, set_speed, cycle_speed, set_volume, set_repeat_mode, cycle_repeat, close,
}
use nodetalk.Player.Steps.{
  Step, subscribes, unsubscribes, plays, finds_url, decodes, gets_ready, fails, pauses, closes,
  cycles_speed, cycles_repeat, toggles, seeks, sets_speed, sets_volume, sets_repeat, played, ended,
  paused, rate_changed, volume_changed, frame_runs, take, take_all,
}

-- No frame is to run, or one, which is in `raf`.
abbrev pub OneFrame : Option ℕ → List ℕ → Type 0
OneFrame raf [] = Unit
OneFrame raf (f ∷ []) = raf ≡ some f
OneFrame raf (f ∷ g ∷ frames) = ⊥

cancel-none :
    (raf : Option ℕ) (frames : List ℕ) → OneFrame raf frames → cancel_frame raf frames ≡ []
unfolding cancel_frame filter
cancel-none none [] h = refl
cancel-none (some id) [] h = refl
cancel-none none (f ∷ []) h = cc
cancel-none (some id) (f ∷ []) h = ground arith
cancel-none raf (f ∷ g ∷ frames) h = elim h [ ]

abbrev pub HasOneFrame : Player → Type 0
HasOneFrame p = OneFrame p.raf p.frames

start_raf-HasOneFrame : (p : Player) → HasOneFrame p → HasOneFrame (start_raf p)
unfolding start_raf
start_raf-HasOneFrame p h = rw (cancel-none p.raf p.frames h) refl

stop_raf-none : (p : Player) → HasOneFrame p → (stop_raf p).frames ≡ []
unfolding stop_raf
stop_raf-none p h = cancel-none p.raf p.frames h

none-HasOneFrame : (p : Player) → p.frames ≡ [] → HasOneFrame p
none-HasOneFrame p e = rw e tt

-- A frame that runs is the only one.
run-none :
    (id : ℕ) (raf : Option ℕ) (frames : List ℕ)
    → OneFrame raf frames
    → any (λ f. nat_beq f id) frames ≡ true
    → filter (λ f. not (nat_beq f id)) frames ≡ []
unfolding filter any
run-none id raf [] h e = cc
run-none id raf (f ∷ []) h e = ground arith
run-none id raf (f ∷ g ∷ frames) h e = elim h [ ]

tick-HasOneFrame :
    (id : ℕ) (is_paused has_ended : Bool) (time : ℕ) (p : Player)
    → HasOneFrame p
    → any (λ f. nat_beq f id) p.frames ≡ true
    → HasOneFrame (tick id is_paused has_ended time p)
unfolding tick
tick-HasOneFrame id true has_ended time p h e = rw (run-none id p.raf p.frames h e) tt
tick-HasOneFrame id false true time p h e = rw (run-none id p.raf p.frames h e) tt
tick-HasOneFrame id false false time p h e = rw (run-none id p.raf p.frames h e) refl

ended-HasOneFrame :
    (mode : RepeatMode) (p : Player)
    → p.state.repeat_mode ≡ mode
    → HasOneFrame p
    → HasOneFrame (on_ended p)
unfolding on_ended
ended-HasOneFrame repeat_all p e h = rw e h
ended-HasOneFrame once p e h = rw e h
ended-HasOneFrame no_repeat p e h = rw e (none-HasOneFrame (stop_raf p) (stop_raf-none p h))

play-HasOneFrame :
    (track : VoiceTrack) (p : Player) → HasOneFrame p → HasOneFrame (play_start track p).0
unfolding play_start
play-HasOneFrame track p h =
    elim (Bool-cases (is_track p.state.track track.file_id && has_src p.audio.src)) [
      | inl e ↦ rw e h
      | inr e ↦ rw e h
    ]

toggle-HasOneFrame :
    (is_paused : Bool) (p : Player) → HasOneFrame p → HasOneFrame (toggle_play is_paused p).0
unfolding toggle_play
toggle-HasOneFrame false p h = h
toggle-HasOneFrame true p h = elim (Option-cases p.state.track) [
  | inl e ↦ rw e h
  | inr (track, e) ↦ rw e (play-HasOneFrame track p h)
]

use_url-HasOneFrame :
    (url : ℕ) (ready : Bool) (p : Player) → HasOneFrame p → HasOneFrame (use_url url ready p)
unfolding use_url
use_url-HasOneFrame url true p h = h
use_url-HasOneFrame url false p h = h

decoded-HasOneFrame :
    (track : VoiceTrack) (buffer : AudioBuffer) (ready : Bool) (p : Player)
    → HasOneFrame p
    → HasOneFrame (decoded track buffer ready p)
unfolding decoded use_url
decoded-HasOneFrame track buffer true p h = h
decoded-HasOneFrame track buffer false p h = h

seek-HasOneFrame :
    (percent : ℕ) (duration : Option ℕ) (p : Player)
    → HasOneFrame p
    → HasOneFrame (seek percent duration p)
unfolding seek
seek-HasOneFrame percent none p h = h
seek-HasOneFrame percent (some dur) p h = elim (Bool-cases (nat_beq dur 0)) [
  | inl e ↦ rw e h
  | inr e ↦ rw e h
]

step-HasOneFrame : (s : Step) (p : Player) → HasOneFrame p → HasOneFrame (take s p)
unfolding take subscribe unsubscribe decoded ready_to_play play_failed pause set_speed cycle_speed
    set_volume set_repeat_mode cycle_repeat close on_play on_pause on_rate_change on_volume_change
step-HasOneFrame (subscribes fn) p h = elim (Bool-cases (any (λ g. nat_beq g fn) p.listeners)) [
  | inl e ↦ rw e h
  | inr e ↦ rw e h
]
step-HasOneFrame (unsubscribes fn) p h = h
step-HasOneFrame (plays track) p h = play-HasOneFrame track p h
step-HasOneFrame (finds_url url ready) p h = use_url-HasOneFrame url ready p h
step-HasOneFrame (decodes track buffer ready) p h = decoded-HasOneFrame track buffer ready p h
step-HasOneFrame (gets_ready duration) p h = h
step-HasOneFrame fails p h = h
step-HasOneFrame pauses p h = h
step-HasOneFrame closes p h = none-HasOneFrame (stop_raf p) (stop_raf-none p h)
step-HasOneFrame cycles_speed p h = h
step-HasOneFrame cycles_repeat p h = h
step-HasOneFrame (toggles is_paused) p h = toggle-HasOneFrame is_paused p h
step-HasOneFrame (seeks percent duration) p h = seek-HasOneFrame percent duration p h
step-HasOneFrame (sets_speed speed) p h = h
step-HasOneFrame (sets_volume volume) p h = h
step-HasOneFrame (sets_repeat mode) p h = h
step-HasOneFrame played p h = start_raf-HasOneFrame p h
step-HasOneFrame ended p h = ended-HasOneFrame p.state.repeat_mode p refl h
step-HasOneFrame (paused time) p h = none-HasOneFrame (stop_raf p) (stop_raf-none p h)
step-HasOneFrame (rate_changed rate) p h = h
step-HasOneFrame (volume_changed volume) p h = h
step-HasOneFrame (frame_runs id is_paused has_ended time) p h =
    elim (Bool-cases (any (λ f. nat_beq f id) p.frames)) [
      | inl e ↦ rw e (tick-HasOneFrame id is_paused has_ended time p h e)
      | inr e ↦ rw e h
    ]

steps-HasOneFrame :
    (steps : List Step) (p : Player) → HasOneFrame p → HasOneFrame (take_all steps p)
unfolding take_all
steps-HasOneFrame [] p h = h
steps-HasOneFrame (s ∷ steps) p h = steps-HasOneFrame steps (take s p) (step-HasOneFrame s p h)

end_of :
    (mode : RepeatMode) (p : Player)
    → p.state.repeat_mode ≡ mode
    → (stop_raf p).frames ≡ []
    → (p.state.repeat_mode ≢ no_repeat) ⊎ ((on_ended p).frames ≡ [])
unfolding on_ended
end_of no_repeat p e h = inr (rw e h)
end_of once p e h = inl (λ k. cc)
end_of repeat_all p e h = inl (λ k. cc)

last_tick :
    (id : ℕ) (is_paused has_ended : Bool) (time : ℕ) (p : Player)
    → (is_paused || has_ended) ≡ true
    → HasOneFrame p
    → (any (λ f. nat_beq f id) p.frames ≡ false)
      ⊎ ((tick id is_paused has_ended time p).frames ≡ [])
unfolding tick
last_tick id is_paused has_ended time p h k = elim (Bool-cases (any (λ f. nat_beq f id) p.frames)) [
  | inl e ↦ inr (rw h (run-none id p.raf p.frames k e))
  | inr e ↦ inl e
]

-- Whatever happens to a new player, in any order: the browser has one animation frame of it to run at
-- most, and that one is in `raf`, where it can be cancelled.
pub one_frame : (steps : List Step) → HasOneFrame (take_all steps voice_player)
one_frame steps = steps-HasOneFrame steps voice_player tt

-- The loop of animation frames ends, whatever happened since a new player was made: when the audio
-- pauses, when the track ends and does not repeat, and when the player is closed, no frame is to run; and
-- a frame that runs while the audio is paused or has ended is the last one.
pub frames_end :
    (steps : List Step) (time id : ℕ) (is_paused has_ended : Bool)
    → (is_paused || has_ended) ≡ true
    → let p = take_all steps voice_player in
      ((on_pause time p).frames ≡ [])
      × ((p.state.repeat_mode ≢ no_repeat) ⊎ ((on_ended p).frames ≡ []))
      × ((close p).frames ≡ [])
      × ((any (λ f. nat_beq f id) p.frames ≡ false)
          ⊎ ((tick id is_paused has_ended time p).frames ≡ []))
unfolding on_pause close
frames_end steps time id is_paused has_ended h =
    let p = take_all steps voice_player in
    let stopped : (stop_raf p).frames ≡ [] = stop_raf-none p (one_frame steps) in
    (
      stopped,
      end_of p.state.repeat_mode p refl stopped,
      stopped,
      last_tick id is_paused has_ended time p h (one_frame steps),
    )
