-- ===== src/Player/Playback.antt =====
-- The public operations of the voice player.
use nodetalk.Prelude.{
  ℕ, ◌+◌, ◌*◌, ◌/◌, String, Bool, true, false, not, ◌&&◌, List, ◌∷◌, Option, none, some, nat_beq,
  ltb, min, max, if◌then◌else◌, ◌==◌,
}
use nodetalk.Prelude.Dict
use nodetalk.Audio.{AudioBuffer, player_wav}
use nodetalk.Player.{
  VoiceTrack, RepeatMode, no_repeat, once, repeat_all, Source, unset, page_address, object_url,
  play_command, pause_command, load_command, Player, patch, stop_raf, command,
}

-- Where `fetchAndDecode` finds the bytes of a track whose URL is not cached.
pub data Origin : Type 0 where
  from_db : List ℕ → Origin
  missing_key : Origin
  from_server : String → Origin

unfoldable pub origin_of : VoiceTrack → Option (List ℕ) → Bool → Origin
origin_of track (some bytes) has_key = from_db bytes
origin_of track none has_key = if has_key then from_server track.file_id else missing_key

abbrev pub has_src : Source → Bool
has_src unset = false
has_src page_address = true
has_src (object_url url) = true

abbrev pub is_track : Option VoiceTrack → String → Bool
is_track none file_id = false
is_track (some track) file_id = track.file_id == file_id

unfoldable pub set_rate : ℕ → Player → Player
set_rate rate p = record p { audio = record p.audio { playback_rate = rate } }

unfoldable pub set_src : Source → Player → Player
set_src src p = record p { audio = record p.audio { src = src } }

-- `play` up to its first await, with the URL if there is one in the cache; `none` where a track is
-- resumed.
unfoldable pub play_start : VoiceTrack → Player → Player × Option (Option ℕ)
unfolding set_rate command patch
play_start track p =
    if is_track p.state.track track.file_id && has_src p.audio.src
    then (command play_command (set_rate p.state.speed p), none)
    else (
      patch
          (λ s. record s {
            track = some track;
            is_loading = true;
            is_playing = false;
            current_time = 0;
            duration = 0;
          })
          p,
      some (Dict.lookup track.file_id p.wav_urls),
    )

-- `play` goes on with the URL; `ready` is whether the element has data at once.
unfoldable pub use_url : ℕ → Bool → Player → Player
unfolding set_src set_rate command
use_url url ready p =
    let q = set_rate p.state.speed (set_src (object_url url) p) in
    if ready then q else command load_command q

-- The bytes were decoded: the end of `fetchAndDecode`.
unfoldable pub decoded : VoiceTrack → AudioBuffer → Bool → Player → Player
unfolding use_url Dict.insert
decoded track buffer ready p =
    let url = p.next_url in
    use_url url ready (record p {
      next_url = url + 1;
      object_urls = (url, player_wav buffer) ∷ p.object_urls;
      wav_urls = Dict.insert track.file_id url p.wav_urls;
      buffers = Dict.insert track.file_id buffer p.buffers;
    })

-- The element can play; a duration that is not a number counts as 0.
unfoldable pub ready_to_play : ℕ → Player → Player
unfolding patch command
ready_to_play duration p =
    command play_command (patch (λ s. record s { duration = duration; is_loading = false }) p)

unfoldable pub play_failed : Player → Player
unfolding patch
play_failed p = patch (λ s. record s { is_loading = false; is_playing = false }) p

unfoldable pub pause : Player → Player
unfolding command
pause p = command pause_command p

-- `play` where the element is paused and there is a track
unfoldable pub toggle_play : Bool → Player → Player × Option (Option ℕ)
unfolding pause play_start
toggle_play paused p =
    if not paused
    then (pause p, none)
    else elim p.state.track [ none ↦ (p, none) | some track ↦ play_start track p ]

-- `none`: the duration is not finite.
unfoldable pub seek : ℕ → Option ℕ → Player → Player
unfolding patch
seek percent none p = p
seek percent (some dur) p =
    let t = min 1000 percent * dur in
    if nat_beq dur 0
    then p
    else patch (λ s. record s { current_time = t })
        (record p { audio = record p.audio { position = t } })

unfoldable pub set_speed : ℕ → Player → Player
unfolding patch set_rate
set_speed speed p =
    let s = max 50 (min 400 speed) in patch (λ st. record st { speed = s }) (set_rate s p)

-- `SPEEDS[(SPEEDS.indexOf(speed) + 1) % SPEEDS.length]`
unfoldable pub next_speed : ℕ → ℕ
next_speed speed =
    if nat_beq speed 100
    then 150
    else (if nat_beq speed 150
        then 200
        else (if nat_beq speed 200 then 250 else (if nat_beq speed 250 then 300 else 100)))

unfoldable pub cycle_speed : Player → Player
unfolding set_speed next_speed
cycle_speed p = set_speed (next_speed p.state.speed) p

unfoldable pub set_volume : ℕ → Player → Player
unfolding patch
set_volume volume p =
    let v = min 100 volume in
    patch (λ s. record s { volume = v }) (record p { audio = record p.audio { volume = v } })

abbrev pub is_all : RepeatMode → Bool
is_all no_repeat = false
is_all once = false
is_all repeat_all = true

unfoldable pub set_repeat_mode : RepeatMode → Player → Player
unfolding patch
set_repeat_mode mode p =
    patch (λ s. record s { repeat_mode = mode })
      (record p { audio = record p.audio { loop = is_all mode } })

unfoldable pub next_repeat : RepeatMode → RepeatMode
next_repeat no_repeat = once
next_repeat once = repeat_all
next_repeat repeat_all = no_repeat

unfoldable pub cycle_repeat : Player → Player
unfolding set_repeat_mode next_repeat
cycle_repeat p = set_repeat_mode (next_repeat p.state.repeat_mode) p

unfoldable pub close : Player → Player
unfolding command set_src stop_raf patch
close p =
    patch (λ s. record s { track = none; is_playing = false; current_time = 0; duration = 0 })
      (stop_raf (set_src page_address (command pause_command p)))

-- In thousandths.
unfoldable pub progress_for : String → Player → ℕ
progress_for file_id p =
    if is_track p.state.track file_id
    then (if ltb 0 p.state.duration then p.state.current_time / p.state.duration else 0)
    else 0
