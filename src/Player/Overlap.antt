-- ===== src/Player/Overlap.antt =====
-- What a track that is played does when nothing else happens meanwhile, and when another is played.
use nodetalk.Prelude.{
  ℕ, ◌+◌, ◌<◌, ◌≡◌, refl, ap, ◌∙◌, String, Bool, true, false, ◌∷◌, none, some, arith, nat_beq, ltb,
  min, ◌==◌, eq_refl,
}
use nodetalk.Prelude.Dict
use nodetalk.Prelude.Dict.{lookup-insert}
use nodetalk.Audio.{AudioBuffer, player_wav}
use nodetalk.Player.{VoiceTrack, object_url, play_command, Player}
use nodetalk.Player.Playback.{
  is_track, play_start, use_url, decoded, ready_to_play, seek, close, progress_for,
}

found :
    (id : String) (url : ℕ) (urls : Dict.Dict ℕ)
    → Dict.lookup id (Dict.insert id url urls) ≡ some url
found id url urls = lookup-insert id id url urls ∙ rw (eq_refl id) refl

-- A track that is not the current one: its request goes on until it is decoded, and then the element
-- has the URL of its WAV file, at the speed of the player, and plays; the track is shown and is not
-- loading any more; and after the player is closed the track is found in the cache.
pub play_lem :
    (track : VoiceTrack) (buffer : AudioBuffer) (is_ready : Bool) (duration : ℕ) (p : Player)
    → is_track p.state.track track.file_id ≡ false
    → Dict.lookup track.file_id p.wav_urls ≡ none
    → let q = ready_to_play duration (decoded track buffer is_ready (play_start track p).0) in
      ((play_start track p).1 ≡ some none)
      × (q.audio.src ≡ object_url p.next_url)
      × (q.object_urls ≡ (p.next_url, player_wav buffer) ∷ p.object_urls)
      × (q.audio.playback_rate ≡ p.state.speed)
      × (q.state.track ≡ some track)
      × (q.state.is_loading ≡ false)
      × (q.state.duration ≡ duration)
      × ((play_start track (close q)).1 ≡ some (some p.next_url))
unfolding play_start decoded ready_to_play use_url close
play_lem track buffer true duration p h e = rw h (
  ap some e,
  refl,
  refl,
  refl,
  refl,
  refl,
  refl,
  ap some (found track.file_id p.next_url p.wav_urls),
)
play_lem track buffer false duration p h e = rw h (
  ap some e,
  refl,
  refl,
  refl,
  refl,
  refl,
  refl,
  ap some (found track.file_id p.next_url p.wav_urls),
)

-- Two tracks that are not in the cache are played one after the other, and the first is decoded last:
-- the player shows the second track and its element plays the file of the first.
pub late_track_plays :
    (first second : VoiceTrack) (x y : AudioBuffer) (d e : ℕ) (p : Player)
    → is_track p.state.track first.file_id ≡ false
    → (first.file_id == second.file_id) ≡ false
    → Dict.lookup first.file_id p.wav_urls ≡ none
    → Dict.lookup second.file_id p.wav_urls ≡ none
    → let loading = (play_start second (play_start first p).0).0 in
      let q =
        ready_to_play e (decoded first x true (ready_to_play d (decoded second y true loading))) in
      ((play_start first p).1 ≡ some none)
      × ((play_start second (play_start first p).0).1 ≡ some none)
      × (q.state.track ≡ some second)
      × (q.audio.src ≡ object_url (p.next_url + 1))
      × (q.object_urls
          ≡ (p.next_url + 1, player_wav x) ∷ (p.next_url, player_wav y) ∷ p.object_urls)
unfolding play_start decoded ready_to_play use_url
late_track_plays first second x y d e p h k u v = rw (h, k) (ap some u, ap some v, refl, refl, refl)

-- While a track is loading after another one was played, playing it again does not wait for it: the
-- element plays the file that it still has, which is that of the other track.
pub old_file_plays :
    (track : VoiceTrack) (url : ℕ) (p : Player)
    → is_track p.state.track track.file_id ≡ false
    → p.audio.src ≡ object_url url
    → let again = play_start track (play_start track p).0 in
      (again.1 ≡ none)
      × (again.0.state.track ≡ some track)
      × (again.0.audio.src ≡ object_url url)
      × (again.0.audio.commands ≡ play_command ∷ p.audio.commands)
unfolding play_start
old_file_plays track url p h e = rw (h, e, eq_refl track.file_id) (refl, refl, refl, refl)

-- Seeking in the track that is shown, whose duration is d and not 0: its progress is the place that was
-- asked for, at most the end, and the element is there too.
pub progress-seek :
    (percent d : ℕ) (track : VoiceTrack) (p : Player)
    → p.state.track ≡ some track
    → p.state.duration ≡ d
    → 0 < d
    → (progress_for track.file_id (seek percent (some d) p) ≡ min 1000 percent)
      × ((seek percent (some d) p).audio.position ≡ (seek percent (some d) p).state.current_time)
unfolding progress_for seek
progress-seek percent d track p h e l =
    let positive : nat_beq d 0 ≡ false = ground arith in
    let shown : ltb 0 d ≡ true = ground arith in
    rw (positive, h, e, eq_refl track.file_id, shown) (grind arith, refl)
