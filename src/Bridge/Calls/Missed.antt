-- ===== src/Bridge/Calls/Missed.antt =====
-- What the end of a call does to the next call in the same channel.
use nodetalk.Prelude.{
  ℕ, ◌≡◌, refl, ap, ◌∙◌, String, true, false, ◌&&◌, List, [], ◌∷◌, Option, none, some, arith, ◌==◌,
  eq_refl, find, is_text, Bool-cases, inl, inr,
}
use nodetalk.Prelude.IdSet
use nodetalk.Prelude.IdSet.{has-add, has-delete}
use nodetalk.Api.{Channel}
use nodetalk.Channels.{has_id}
use nodetalk.Voice.{
  Voice, IncomingCall, rings_in, set_handled, set_incoming_call, dismiss_incoming_call,
  reset_handled_call, update_participants,
}
use nodetalk.Bridge.{World, Me}
use nodetalk.Bridge.ChannelName.{is_direct_message}
use nodetalk.Bridge.Calls.{
  is_user, first_other, is_in_call, is_other_member, call_from, ringing, ring, check_incoming_call,
  call_ended, on_voice_update,
}

first_is :
    (u : String) (user : Option Me) → is_user u user ≡ false → first_other user (u ∷ []) ≡ some u
unfolding first_other find
first_is u user h = rw h refl

module _ {Stream : Type 0} where
  -- The call in c is over, and c rings.
  ended_ringing :
      (c : String) (call : IncomingCall) (v : Voice Stream)
      → let t = call_ended c (record v { incoming_call = some (record call { channel_id = c }) }) in
        (IdSet.has c t.handled_call_channels ≡ true) × (t.incoming_call ≡ none)
  unfolding call_ended reset_handled_call dismiss_incoming_call set_handled
  ended_ringing c call v = elim (Bool-cases (IdSet.has c v.handled_call_channels)) [
    | inl e ↦ (
      ground (arith, e, eq_refl c, has-add c c (IdSet.delete c v.handled_call_channels)),
      ground (arith, e, eq_refl c),
    )
    | inr e ↦ (
      ground (arith, e, eq_refl c, has-add c c v.handled_call_channels),
      ground (arith, e, eq_refl c),
    )
  ]

  -- The call in c is over, and c does not ring.
  ended_quiet :
      (c : String) (v : Voice Stream)
      → rings_in c v.incoming_call ≡ false
      → (IdSet.has c (call_ended c v).handled_call_channels ≡ false)
        × ((call_ended c v).active_channel_id ≡ v.active_channel_id)
        × ((call_ended c v).is_active ≡ v.is_active)
  unfolding call_ended reset_handled_call set_handled
  ended_quiet c v r = (
    ground (arith, r, has-delete c c v.handled_call_channels, eq_refl c),
    ground (arith, r),
    ground (arith, r),
  )

  handled_not_ringing :
      (c : String) (now : ℕ) (o : Option Channel) (users : List String) (w : World Stream)
      → IdSet.has c w.voice.handled_call_channels ≡ true
      → ringing now o c users w ≡ none
  unfolding ringing
  handled_not_ringing c now none users w h = refl
  handled_not_ringing c now (some ch) users w h = ground (arith, h)

  update_empty :
      (c : String) (now : ℕ) (w : World Stream)
      → (c == "") ≡ false
      → on_voice_update now c [] w
        ≡ record w { voice = call_ended c (update_participants c [] w.voice) }
  unfolding on_voice_update
  update_empty c now w h = rw h refl

  update_ring :
      (c u : String) (now : ℕ) (users : List String) (w : World Stream)
      → (c == "") ≡ false
      → let v = record w { voice = update_participants c (u ∷ users) w.voice } in
        on_voice_update now c (u ∷ users) w
        ≡ ring (ringing now (find (has_id c) w.channels.channels) c (u ∷ users) v) v
  unfolding on_voice_update check_incoming_call
  update_ring c u now users w h = rw h refl

  update_silent :
      (c u : String) (now : ℕ) (users : List String) (w : World Stream)
      → (c == "") ≡ false
      → IdSet.has c w.voice.handled_call_channels ≡ true
      → (on_voice_update now c (u ∷ users) w).voice.incoming_call ≡ w.voice.incoming_call
  unfolding ring update_participants
  update_silent c u now users w h k =
      let v = record w { voice = update_participants c (u ∷ users) w.voice } in
      ap (λ (x : World Stream). x.voice.incoming_call)
        (update_ring c u now users w h
          ∙ ap (λ o. ring o v)
              (handled_not_ringing c now (find (has_id c) w.channels.channels) (u ∷ users) v k))

  -- A call that its caller gives up while it rings: the update that says that nobody is in the call any
  -- more marks the channel as handled, so that the next call in the channel does not ring.
  pub missed_call_silences :
      (c u : String) (call : IncomingCall) (v : Voice Stream) (w : World Stream) (now later : ℕ)
      (users : List String)
      → (c == "") ≡ false
      → let ringing_world = record w {
        voice = record v { incoming_call = some (record call { channel_id = c }) };
      } in
        let missed = on_voice_update now c [] ringing_world in
        (missed.voice.incoming_call ≡ none)
        × ((on_voice_update later c (u ∷ users) missed).voice.incoming_call ≡ none)
  unfolding update_participants
  missed_call_silences c u call v w now later users h =
      let ringing_world = record w {
        voice = record v { incoming_call = some (record call { channel_id = c }) };
      } in
      let missed = on_voice_update now c [] ringing_world in
      let over = update_empty c now ringing_world h in
      let e = ended_ringing c call (update_participants c [] v) in
      let quiet = ap (λ (x : World Stream). x.voice.incoming_call) over ∙ e.1 in
      let handled =
        ap (λ (x : World Stream). IdSet.has c x.voice.handled_call_channels) over ∙ e.0 in
      (quiet, update_silent c u later users missed h handled ∙ quiet)

  rings_for :
      (c u : String) (ch : Channel) (w : World Stream) (now : ℕ)
      → (u == "") ≡ false
      → is_direct_message ch ≡ true
      → first_other w.user ch.members ≡ some u
      → is_user u w.user ≡ false
      → is_in_call c w.voice ≡ false
      → IdSet.has c w.voice.handled_call_channels ≡ false
      → ringing now (some ch) c (u ∷ []) w ≡ some (call_from now ch u)
  unfolding ringing is_other_member
  rings_for c u ch w now hu dm other me out fresh =
      let caller : first_other w.user (u ∷ []) ≡ some u = first_is u w.user me in
      rw (dm, out, fresh, caller, other, hu, eq_refl u)

  -- After a call in the direct message channel c that did not ring any more when it ended, because it
  -- was answered or declined, the next call of the other member u rings, whatever was handled before,
  -- unless the user is in the call.
  pub next_call_rings :
      (c u : String) (ch : Channel) (w : World Stream) (now later : ℕ)
      → (c == "") ≡ false
      → (u == "") ≡ false
      → find (has_id c) w.channels.channels ≡ some ch
      → is_direct_message ch ≡ true
      → first_other w.user ch.members ≡ some u
      → is_user u w.user ≡ false
      → is_in_call c w.voice ≡ false
      → rings_in c w.voice.incoming_call ≡ false
      → (on_voice_update later c (u ∷ []) (on_voice_update now c [] w)).voice.incoming_call
        ≡ some (call_from later ch u)
  unfolding ring set_incoming_call update_participants is_in_call
  next_call_rings c u ch w now later hc hu found dm other me out r =
      let ended = call_ended c (update_participants c [] w.voice) in
      let v = record w { voice = ended } in
      let t = record v { voice = update_participants c (u ∷ []) ended } in
      let q = ended_quiet c (update_participants c [] w.voice) r in
      let free =
        ap (λ b. b && is_text ended.active_channel_id c) q.2
        ∙ ap (λ o. w.voice.is_active && is_text o c) q.1
        ∙ out in
      ap (λ (x : World Stream). (on_voice_update later c (u ∷ []) x).voice.incoming_call)
        (update_empty c now w hc)
      ∙ ap (λ (x : World Stream). x.voice.incoming_call) (update_ring c u later [] v hc)
      ∙ ap (λ o. (ring o t).voice.incoming_call)
          (ap (λ o. ringing later o c (u ∷ []) t) found
            ∙ rings_for c u ch t later hu dm other me free q.0)
