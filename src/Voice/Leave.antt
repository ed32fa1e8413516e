-- ===== src/Voice/Leave.antt =====
-- The end of a call in the store.
use nodetalk.Prelude.{
  ◌≡◌, refl, ap, String, Bool, true, false, ◌||◌, [], none, some, arith, ◌==◌, if◌then◌else◌,
}
use nodetalk.Prelude.Dict
use nodetalk.Prelude.Dict.{lookup-erase}
use nodetalk.Prelude.IdSet
use nodetalk.Prelude.IdSet.{has-add}
use nodetalk.Voice.{Voice, idle, set_handled, leave_voice}

if_again {ℓ} :
    {A : Type ℓ} (b : Bool) (x y : A)
    → (if b then x else (if b then x else y)) ≡ (if b then x else y)
if_again true x y = refl
if_again false x y = refl

module _ {Stream : Type 0} where
  leave_again : (s : Voice Stream) → leave_voice (leave_voice s) ≡ leave_voice s
  unfolding leave_voice set_handled
  leave_again s =
      let t = leave_voice s in
      ap (λ o. record t { saved_handled = o })
        (if_again s.can_store (some t.handled_call_channels) s.saved_handled)

  -- No call, no stream of anybody, nobody presenting, nothing ringing.
  abbrev pub IsOutOfCall : Voice Stream → Type 0
  IsOutOfCall s =
      (s.active_channel_id ≡ none)
      × (s.is_active ≡ false)
      × (s.call_status ≡ idle)
      × (s.is_video_enabled ≡ false)
      × (s.is_screen_sharing ≡ false)
      × (s.local_stream ≡ none)
      × (s.local_screen_stream ≡ none)
      × (s.remote_streams ≡ [])
      × (s.remote_screen_streams ≡ [])
      × (s.participant_track_states ≡ [])
      × (s.active_presenter_id ≡ none)
      × (s.spotlight_stream_id ≡ none)
      × (s.speaking_users ≡ [])
      × (s.incoming_call ≡ none)
      × (s.ping ≡ none)

  -- Leaving the call in channel c (whose id is not empty) clears every field of the call; of the
  -- rosters only that of c goes, channel c and no other counts as handled from now on, and leaving
  -- once more changes nothing.
  pub leave_voice_lem :
      (s : Voice Stream) (c j : String)
      → (c == "") ≡ false
      → let t = leave_voice (record s { active_channel_id = some c }) in
        IsOutOfCall t
        × (Dict.lookup j t.participants ≡ (if c == j then none else Dict.lookup j s.participants))
        × (IdSet.has j t.handled_call_channels ≡ (c == j || IdSet.has j s.handled_call_channels))
        × (leave_voice t ≡ t)
  unfolding leave_voice set_handled
  leave_voice_lem s c j h = (
    (refl, refl, refl, refl, refl, refl, refl, refl, refl, refl, refl, refl, refl, refl, refl),
    ground (arith, h, lookup-erase c j s.participants),
    ground (arith, h, has-add c j s.handled_call_channels),
    leave_again (record s { active_channel_id = some c }),
  )
