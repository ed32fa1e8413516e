-- ===== src/Recorder/Released.antt =====
-- The microphone and the object URLs that a recording takes, and their release.
use nodetalk.Prelude.{
  ℕ, ◌+◌, ◌≡◌, refl, true, false, List, [], ◌∷◌, Option, none, some, arith, nat_beq, filter, any,
  All,
}
use nodetalk.Recorder.{
  Recorder, idle, drop_id, start_recording, recording_started, discard_recording, unmount,
}

-- All that is live is the component's own.
abbrev pub IsOwned : Recorder → Type 0
IsOwned r =
    All (λ s. r.stream ≡ some s) r.live_streams
    × All (λ u. r.preview_url ≡ some u) r.live_urls
    × All (λ t. r.timer ≡ some t) r.live_timers

abbrev pub IsReleased : Recorder → Type 0
IsReleased r =
    (r.live_streams ≡ [])
    × (r.live_urls ≡ [])
    × (r.live_timers ≡ [])
    × (r.timer ≡ none)
    × (r.frame ≡ false)
    × (r.has_analyser ≡ false)

drop_id-own : (o : Option ℕ) (ids : List ℕ) → All (λ s. o ≡ some s) ids → drop_id o ids ≡ []
unfolding filter
drop_id-own none [] h = refl
drop_id-own (some id) [] h = refl
drop_id-own none (i ∷ ids) h = cc h.0
drop_id-own (some id) (i ∷ ids) h =
    let same : id ≡ i = cc h.0 in ground (arith, drop_id-own (some id) ids h.1)

-- A component that owns all that is live, in whatever state it is: when the recording is discarded, when
-- another one is about to start, and when the component is unmounted, no microphone is on, no object URL
-- is kept, and no timer, analyser or animation frame runs; and a discarded recording leaves the component
-- idle.
pub discard_recording_lem :
    (r : Recorder)
    → IsOwned r
    → IsReleased (discard_recording r)
      × IsReleased (start_recording r)
      × IsReleased (unmount r)
      × ((discard_recording r).mode ≡ idle)
      × ((discard_recording r).recorded_blob ≡ none)
unfolding discard_recording start_recording unmount
discard_recording_lem r h =
    let streams = drop_id-own r.stream r.live_streams h.0 in
    let urls = drop_id-own r.preview_url r.live_urls h.1 in
    let timers = drop_id-own r.timer r.live_timers h.2 in
    (
      (streams, urls, timers, refl, refl, refl),
      (streams, urls, timers, refl, refl, refl),
      (streams, urls, timers, refl, refl, refl),
      refl,
      refl,
    )

first_stays :
    (first second : ℕ) (ids : List ℕ)
    → nat_beq first second ≡ false
    → any (λ s. nat_beq s first) (drop_id (some second) (second ∷ first ∷ ids)) ≡ true
unfolding any filter
first_stays first second ids h = ground arith

given-IsLive : (id : ℕ) (ids : List ℕ) → any (λ s. nat_beq s id) (id ∷ ids) ≡ true
unfolding any
given-IsLive id ids = ground arith

-- The button is pressed twice before the browser gives the microphone: of the two streams the first one
-- stays on when the recording is discarded or the component is unmounted, and the first of the two
-- intervals goes on. So does the stream that the browser gives after the component was unmounted.
pub double_start_leaks :
    (r : Recorder) (first second : ℕ)
    → nat_beq first second ≡ false
    → let q =
        recording_started second (recording_started first (start_recording (start_recording r))) in
      (any (λ s. nat_beq s first) (discard_recording q).live_streams ≡ true)
      × (any (λ s. nat_beq s first) (unmount q).live_streams ≡ true)
      × (any
            (λ s. nat_beq s first)
            (recording_started first (unmount (start_recording r))).live_streams
          ≡ true)
      × (any (λ t. nat_beq t r.next_timer) (discard_recording q).live_timers ≡ true)
      × (any (λ t. nat_beq t r.next_timer) (unmount q).live_timers ≡ true)
unfolding discard_recording start_recording unmount recording_started
double_start_leaks r first second h =
    let once = start_recording (start_recording r) in
    let n = r.next_timer in
    let apart : nat_beq n (n + 1) ≡ false = ground arith in
    (
      first_stays first second once.live_streams h,
      first_stays first second once.live_streams h,
      given-IsLive first (unmount (start_recording r)).live_streams,
      first_stays n (n + 1) once.live_timers apart,
      first_stays n (n + 1) once.live_timers apart,
    )
