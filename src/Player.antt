-- ===== src/Player.antt =====
-- client-web/src/lib/voicePlayer.ts: the player of voice messages. `play` is cut at its awaits; what the
-- audio element reads (its time, its duration, whether it is paused) is an argument. Speeds and volumes
-- count hundredths, times microseconds, durations milliseconds, and a place in the track thousandths.
pub mod Playback
pub mod Steps
pub mod Frames
pub mod Overlap
mod Tests
use nodetalk.Prelude.{
  ℕ, suc, ◌+◌, ◌*◌, ◌/◌, String, Bool, true, false, not, ◌||◌, List, [], ◌∷◌, ◌++◌, map, Option,
  none, some, nat_beq, ltb, min, max, if◌then◌else◌, is_text, filter, any,
}
use nodetalk.Prelude.Dict.{Dict}
use nodetalk.Audio.{AudioBuffer}

pub record VoiceTrack : Type 0 where
  pub file_id : String
  pub channel_id : String
  pub mime : String
  pub nonce : String
  pub waveform : Option (List ℕ)
  pub label : Option String

pub data RepeatMode : Type 0 where
  no_repeat once repeat_all : RepeatMode

pub record VoicePlayerState : Type 0 where
  pub track : Option VoiceTrack
  pub is_playing : Bool
  pub is_loading : Bool
  pub current_time : ℕ
  pub duration : ℕ
  pub speed : ℕ
  pub volume : ℕ
  pub repeat_mode : RepeatMode

-- The `src` of the audio element; the empty text reads as the address of the page.
pub data Source : Type 0 where
  unset page_address : Source
  object_url : ℕ → Source

pub data Command : Type 0 where
  play_command pause_command load_command : Command

-- What the player writes to its audio element, and the calls that it makes, newest first.
pub record AudioElement : Type 0 where
  pub src : Source
  pub playback_rate : ℕ
  pub volume : ℕ
  pub position : ℕ
  pub loop : Bool
  pub commands : List Command

-- The fields of the class, the object URLs it made with the file behind each, and the animation frames
-- that the browser will still run. A listener is a number; `calls` are the calls of listeners.
pub record Player : Type 0 where
  pub listeners : List ℕ
  pub calls : List (ℕ × VoicePlayerState)
  pub buffers : Dict AudioBuffer
  pub wav_urls : Dict ℕ
  pub audio : AudioElement
  pub raf : Option ℕ
  pub state : VoicePlayerState
  pub next_url : ℕ
  pub object_urls : List (ℕ × Option (List ℕ))
  pub next_frame : ℕ
  pub frames : List ℕ

abbrev pub initial_state : VoicePlayerState
initial_state = record {
  track = none;
  is_playing = false;
  is_loading = false;
  current_time = 0;
  duration = 0;
  speed = 100;
  volume = 100;
  repeat_mode = no_repeat;
}

-- The browser numbers its frames from 1.
abbrev pub voice_player : Player
voice_player = record {
  listeners = [];
  calls = [];
  buffers = [];
  wav_urls = [];
  audio = record {
    src = unset;
    playback_rate = 100;
    volume = 100;
    position = 0;
    loop = false;
    commands = [];
  };
  raf = none;
  state = initial_state;
  next_url = 0;
  object_urls = [];
  next_frame = 1;
  frames = [];
}

-- A `Set` keeps a listener once.
unfoldable pub subscribe : ℕ → Player → Player
subscribe fn p =
    if any (λ g. nat_beq g fn) p.listeners
    then p
    else record p { listeners = p.listeners ++ fn ∷ [] }

unfoldable pub unsubscribe : ℕ → Player → Player
unsubscribe fn p = record p { listeners = filter (λ g. not (nat_beq g fn)) p.listeners }

-- `patch`, with `emit`
unfoldable pub patch : (VoicePlayerState → VoicePlayerState) → Player → Player
patch change p =
    let state = change p.state in
    record p { state = state; calls = p.calls ++ map (λ fn. (fn, state)) p.listeners }

unfoldable pub cancel_frame : Option ℕ → List ℕ → List ℕ
cancel_frame none frames = frames
cancel_frame (some id) frames = filter (λ f. not (nat_beq f id)) frames

unfoldable pub request_frame : Player → Player
request_frame p = record p {
  raf = some p.next_frame;
  next_frame = p.next_frame + 1;
  frames = p.frames ++ p.next_frame ∷ [];
}

unfoldable pub start_raf : Player → Player
unfolding cancel_frame request_frame
start_raf p = request_frame (record p { frames = cancel_frame p.raf p.frames })

unfoldable pub stop_raf : Player → Player
unfolding cancel_frame
stop_raf p = record p { raf = none; frames = cancel_frame p.raf p.frames }

-- The frame `id` runs: the next one is asked for while the audio goes on.
unfoldable pub tick : ℕ → Bool → Bool → ℕ → Player → Player
unfolding patch request_frame
tick id paused ended time p =
    let q = record p { frames = filter (λ f. not (nat_beq f id)) p.frames } in
    if paused || ended then q else request_frame (patch (λ s. record s { current_time = time }) q)

unfoldable pub command : Command → Player → Player
command c p = record p { audio = record p.audio { commands = c ∷ p.audio.commands } }

unfoldable pub on_play : Player → Player
unfolding patch start_raf
on_play p = start_raf (patch (λ s. record s { is_playing = true }) p)

unfoldable pub on_pause : ℕ → Player → Player
unfolding patch stop_raf
on_pause time p = patch (λ s. record s { is_playing = false; current_time = time }) (stop_raf p)

abbrev pub rewind : Player → Player
rewind p = record p { audio = record p.audio { position = 0 } }

unfoldable pub on_ended : Player → Player
unfolding patch stop_raf command
on_ended p = elim p.state.repeat_mode [
  | repeat_all ↦
      patch (λ s. record s { current_time = 0; is_playing = true })
        (command play_command (rewind p))
  | once ↦ command play_command (
      rewind
        (patch (λ s. record s { repeat_mode = no_repeat; current_time = 0; is_playing = true }) p))
  | no_repeat ↦ patch (λ s. record s { is_playing = false; current_time = 0 }) (stop_raf p)
]

unfoldable pub on_rate_change : ℕ → Player → Player
unfolding patch
on_rate_change rate p = patch (λ s. record s { speed = rate }) p

unfoldable pub on_volume_change : ℕ → Player → Player
unfolding patch
on_volume_change volume p = patch (λ s. record s { volume = volume }) p
