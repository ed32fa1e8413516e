-- ===== src/Bridge/Calls/Ringing.antt =====
-- Which calls ring: none that was answered or declined, until the call is over.
use nodetalk.Prelude.{
  ℕ, ◌≡◌, refl, ap, sym, ◌∙◌, String, true, false, List, [], ◌∷◌, Option, none, some, arith, ◌==◌,
  eq_iff, find, Bool-cases, Option-cases, inl, inr,
}
use nodetalk.Prelude.Dict.{Dict}
use nodetalk.Prelude.IdSet
use nodetalk.Prelude.IdSet.{has-add, has-delete}
use nodetalk.Api.{Channel}
use nodetalk.Channels.{Store, has_id}
use nodetalk.Channels.Listed.{find-id}
use nodetalk.Voice.{
  Voice, IncomingCall, rings_in, set_handled, join_voice, leave_voice, set_incoming_call, or_null,
  dismiss_incoming_call, mark_call_handled, reset_handled_call, set_ping, update_participants,
  add_log, clear_logs,
}
use nodetalk.Voice.Streams.{
  set_remote_stream, set_remote_screen_stream, remove_remote_stream, set_track_state,
  set_preferred_camera_id, set_active_presenter_id, set_spotlight_stream_id,
  set_screen_share_settings, set_screen_share_volume, toggle_screen_share_mute, set_user_volume,
  toggle_user_mute,
}
use nodetalk.Voice.Actions.{
  Action, act, set_internal_state, joins, leaves, sets_incoming, dismisses, marks_handled,
  resets_handled, sets_ping, updates_participants, logs, clears_logs, sets_remote,
  sets_remote_screen, removes_remote, sets_track, sets_camera, sets_presenter, sets_spotlight,
  sets_settings, sets_screen_volume, toggles_screen_mute, sets_volume, toggles_mute, sets_internal,
}
use nodetalk.Bridge.{World, emit}
use nodetalk.Bridge.Calls.{
  call_from, ringing, ring, check_incoming_call, check_all, on_channels, call_ended,
  on_voice_update,
}

-- What happens to the calls: the two handlers, and any action of the voice store.
pub data Event (Stream : Type 0) : Type 0 where
  voice_updates : ℕ → String → List String → Event Stream
  channels_change : ℕ → Store → Event Stream
  acts : Action Stream → Event Stream

module _ {Stream : Type 0} where
  unfoldable pub happen : Event Stream → World Stream → World Stream
  happen (voice_updates now channel_id users) w = on_voice_update now channel_id users w
  happen (channels_change now channels) w = on_channels now channels w
  happen (acts a) w = record w { voice = act a w.voice }

  unfoldable pub happen_all : List (Event Stream) → World Stream → World Stream
  unfolding happen
  happen_all [] w = w
  happen_all (e ∷ events) w = happen_all events (happen e w)

  -- The call in channel c goes on: nothing says that it is over, and no action starts it by hand.
  abbrev pub KeepsCall : String → Event Stream → Type 0
  KeepsCall c (voice_updates now channel_id []) = (channel_id == c) ≡ false
  KeepsCall c (voice_updates now channel_id (u ∷ users)) = Unit
  KeepsCall c (channels_change now channels) = Unit
  KeepsCall c (acts (resets_handled channel_id)) = (channel_id == c) ≡ false
  KeepsCall c (acts (sets_incoming call)) = rings_in c call ≡ false
  KeepsCall c (acts _) = Unit

  abbrev pub AllKeepCall : String → List (Event Stream) → Type 0
  AllKeepCall c [] = Unit
  AllKeepCall c (e ∷ events) = KeepsCall c e × AllKeepCall c events

  -- The call in channel c was answered or declined, and does not ring.
  abbrev pub IsSilent : String → Voice Stream → Type 0
  IsSilent c v = (IdSet.has c v.handled_call_channels ≡ true) × (rings_in c v.incoming_call ≡ false)

  act-IsSilent :
      (c : String) (a : Action Stream) (v : Voice Stream)
      → KeepsCall c (acts a)
      → IsSilent c v
      → IsSilent c (act a v)
  unfolding act set_handled join_voice leave_voice set_incoming_call dismiss_incoming_call
      mark_call_handled reset_handled_call set_ping update_participants add_log clear_logs
      set_remote_stream set_remote_screen_stream remove_remote_stream set_track_state
      set_preferred_camera_id set_active_presenter_id set_spotlight_stream_id
      set_screen_share_settings set_screen_share_volume toggle_screen_share_mute set_user_volume
      toggle_user_mute set_internal_state
  act-IsSilent c (joins d time) v k (h, r) =
      (ground (arith, h, has-add d c v.handled_call_channels), refl)
  act-IsSilent c leaves v k (h, r) = (
    elim (Option-cases (or_null v.active_channel_id)) [
      | inl e ↦ ground (arith, h, e)
      | inr (d, e) ↦ ground (arith, h, e, has-add d c v.handled_call_channels)
    ],
    refl,
  )
  act-IsSilent c (sets_incoming call) v k (h, r) = (h, k)
  act-IsSilent c dismisses v k (h, r) = elim (Option-cases v.incoming_call) [
    | inl e ↦ (ground (arith, h, e), ground (arith, e))
    | inr (call, e) ↦
        (ground (arith, h, e, has-add call.channel_id c v.handled_call_channels), ground (arith, e))
  ]
  act-IsSilent c (marks_handled d) v k (h, r) =
      (ground (arith, h, has-add d c v.handled_call_channels), ground (arith, r))
  act-IsSilent c (resets_handled d) v k (h, r) =
      (ground (arith, h, k, has-delete d c v.handled_call_channels), ground (arith, r))
  act-IsSilent c (sets_ping ping) v k s = s
  act-IsSilent c (updates_participants channel_id users) v k s = s
  act-IsSilent c (logs time message) v k s = s
  act-IsSilent c clears_logs v k s = s
  act-IsSilent c (sets_remote user_id stream) v k s = s
  act-IsSilent c (sets_remote_screen user_id none) v k s = s
  act-IsSilent c (sets_remote_screen user_id (some stream)) v k s = s
  act-IsSilent c (removes_remote user_id) v k s = s
  act-IsSilent c (sets_track user_id kind enabled) v k s = s
  act-IsSilent c (sets_camera id) v k s = s
  act-IsSilent c (sets_presenter id) v k s = s
  act-IsSilent c (sets_spotlight id) v k s = s
  act-IsSilent c (sets_settings settings) v k s = s
  act-IsSilent c (sets_screen_volume user_id volume) v k s = s
  act-IsSilent c (toggles_screen_mute user_id) v k s = s
  act-IsSilent c (sets_volume user_id volume) v k s = s
  act-IsSilent c (toggles_mute user_id) v k s = s
  act-IsSilent c (sets_internal p) v k s = s

  ringing_other :
      (c : String) (now : ℕ) (ch : Channel) (users : List String) (w : World Stream)
      → IdSet.has c w.voice.handled_call_channels ≡ true
      → rings_in c (ringing now (some ch) ch.id users w) ≡ false
  unfolding ringing call_from
  ringing_other c now ch users w h = elim (Bool-cases (ch.id == c)) [
    | inl e ↦ ground (arith, h, (eq_iff ch.id c).0 e)
    | inr e ↦ ground (arith, h, e)
  ]

  ringing-find :
      (c : String) (now : ℕ) (d : String) (users : List String) (w : World Stream)
      → IdSet.has c w.voice.handled_call_channels ≡ true
      → rings_in c (ringing now (find (has_id d) w.channels.channels) d users w) ≡ false
  unfolding ringing
  ringing-find c now d users w h = elim (Option-cases (find (has_id d) w.channels.channels)) [
    | inl e ↦ rw e refl
    | inr (ch, e) ↦ rw e (
        ap (λ i. rings_in c (ringing now (some ch) i users w))
          (sym (find-id d w.channels.channels {c = ch} e))
        ∙ ringing_other c now ch users w h)
  ]

  ring-IsSilent :
      (c : String) (o : Option IncomingCall) (w : World Stream)
      → rings_in c o ≡ false
      → IsSilent c w.voice
      → IsSilent c (ring o w).voice
  unfolding ring emit set_incoming_call
  ring-IsSilent c none w e s = s
  ring-IsSilent c (some call) w e (h, r) = (h, e)

  check-IsSilent :
      (c : String) (now : ℕ) (d : String) (users : List String) (w : World Stream)
      → IsSilent c w.voice
      → IsSilent c (check_incoming_call now d users w).voice
  unfolding check_incoming_call
  check-IsSilent c now d [] w s = s
  check-IsSilent c now d (u ∷ users) w (h, r) =
      ring-IsSilent c (ringing now (find (has_id d) w.channels.channels) d (u ∷ users) w) w
        (ringing-find c now d (u ∷ users) w h) (h, r)

  check_all-IsSilent :
      (c : String) (now : ℕ) (rosters : Dict (List String)) (w : World Stream)
      → IsSilent c w.voice
      → IsSilent c (check_all now rosters w).voice
  unfolding check_all
  check_all-IsSilent c now [] w s = s
  check_all-IsSilent c now ((d, users) ∷ rosters) w s =
      check_all-IsSilent c now rosters (check_incoming_call now d users w)
        (check-IsSilent c now d users w s)

  call_ended-IsSilent :
      (c d : String) (v : Voice Stream)
      → (d == c) ≡ false
      → IsSilent c v
      → IsSilent c (call_ended d v)
  unfolding call_ended reset_handled_call act
  call_ended-IsSilent c d v k s =
      let reset = act-IsSilent c (resets_handled d) v k s in
      elim (Bool-cases (rings_in d v.incoming_call)) [
        | inl e ↦ rw e (act-IsSilent c dismisses (reset_handled_call d v) tt reset)
        | inr e ↦ rw e reset
      ]

  voice_update-IsSilent :
      (c : String) (now : ℕ) (d : String) (users : List String) (w : World Stream)
      → KeepsCall c (voice_updates now d users)
      → IsSilent c w.voice
      → IsSilent c (on_voice_update now d users w).voice
  unfolding on_voice_update update_participants
  voice_update-IsSilent c now d [] w k s = elim (Bool-cases (d == "")) [
    | inl e ↦ rw e s
    | inr e ↦ rw e (call_ended-IsSilent c d (update_participants d [] w.voice) k s)
  ]
  voice_update-IsSilent c now d (u ∷ users) w k s = elim (Bool-cases (d == "")) [
    | inl e ↦ rw e s
    | inr e ↦ rw e (
        check-IsSilent c now d (u ∷ users)
          (record w { voice = update_participants d (u ∷ users) w.voice }) s)
  ]

  happen-IsSilent :
      (c : String) (e : Event Stream) (w : World Stream)
      → KeepsCall c e
      → IsSilent c w.voice
      → IsSilent c (happen e w).voice
  unfolding happen on_channels
  happen-IsSilent c (voice_updates now d users) w k s = voice_update-IsSilent c now d users w k s
  happen-IsSilent c (acts a) w k s = act-IsSilent c a w.voice k s
  happen-IsSilent c (channels_change now channels) w k s =
      elim (channels.channels)
        as (λ cs.
          IsSilent c
            (elim cs as (λ _. World Stream) [
              | [] ↦ record w { channels = channels }
              | _ ↦ check_all now w.voice.participants (record w { channels = channels })
            ]).voice) [
              | [] ↦ s
              | _ ∷ _ ↦
                  check_all-IsSilent c now w.voice.participants (record w { channels = channels }) s
            ]

  -- A call that was answered or declined in channel c never rings again, whatever other calls, lists of
  -- channels and actions come, as long as no update says that the call in c is over and no action
  -- forgets it or makes it ring by hand.
  pub handled_call-IsSilent :
      (c : String) (events : List (Event Stream)) (w : World Stream)
      → AllKeepCall c events
      → IsSilent c w.voice
      → IsSilent c (happen_all events w).voice
  unfolding happen_all
  handled_call-IsSilent c [] w k s = s
  handled_call-IsSilent c (e ∷ events) w (k, ks) s =
      handled_call-IsSilent c events (happen e w) ks (happen-IsSilent c e w k s)
