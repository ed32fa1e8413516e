-- ===== src/Voice/Peers.antt =====
-- A participant whose streams are removed.
use nodetalk.Prelude.{
  ◌≡◌, refl, String, false, [], ◌∷◌, none, arith, ◌==◌, eq_iff, if◌then◌else◌, is_text,
}
use nodetalk.Prelude.Dict
use nodetalk.Prelude.Dict.{Dict, lookup-erase}
use nodetalk.Voice.{Voice, or_null}
use nodetalk.Voice.Streams.{first_key, presenter_without, spotlight_without, remove_remote_stream}

first_key-erase {ℓ} :
    {A : Type ℓ} (u : String) (d : Dict A)
    → is_text (or_null (first_key (Dict.erase u d))) u ≡ false
unfolding first_key Dict.erase
first_key-erase u [] = refl
first_key-erase u ((key, a) ∷ d) = ground (arith, first_key-erase u d, eq_iff key u)

module _ {Stream : Type 0} where
  presenter_without_other :
      (u : String) (s : Voice Stream) → is_text (presenter_without u s) u ≡ false
  unfolding presenter_without
  presenter_without_other u s = ground arith

  spotlight_without_other :
      (u : String) (s : Voice Stream)
      → ("local" == u) ≡ false
      → is_text (spotlight_without u (Dict.erase u s.remote_screen_streams) s) u ≡ false
  unfolding spotlight_without
  spotlight_without_other u s h = ground (arith, h, first_key-erase u s.remote_screen_streams)

  -- When the streams of participant u are removed (whose id is not the word "local"), u has neither
  -- stream nor track state left, neither presents nor is in the spotlight, where the own screen or
  -- another shared screen takes over, and everybody else keeps what they had.
  pub remove_remote_stream_lem :
      (u j : String) (s : Voice Stream)
      → ("local" == u) ≡ false
      → let t = remove_remote_stream u s in
        (Dict.lookup j t.remote_streams ≡ (if u == j then none else Dict.lookup j s.remote_streams))
        × (Dict.lookup j t.remote_screen_streams
            ≡ (if u == j then none else Dict.lookup j s.remote_screen_streams))
        × (Dict.lookup j t.participant_track_states
            ≡ (if u == j then none else Dict.lookup j s.participant_track_states))
        × (is_text t.active_presenter_id u ≡ false)
        × (is_text t.spotlight_stream_id u ≡ false)
  unfolding remove_remote_stream
  remove_remote_stream_lem u j s h = (
    lookup-erase u j s.remote_streams,
    lookup-erase u j s.remote_screen_streams,
    lookup-erase u j s.participant_track_states,
    presenter_without_other u s,
    spotlight_without_other u s h,
  )
