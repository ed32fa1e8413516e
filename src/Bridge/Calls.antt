-- ===== src/Bridge/Calls.antt =====
-- client-web/src/store/ws.manager.ts: when a call rings: the handler of `voice_update`, the watch on
-- the channel list, and `checkIncomingCall`.

pub mod Ringing
pub mod Missed
use Prim.Native.String
use nodetalk.Prelude.{
  ℕ, String, Bool, true, false, not, ◌&&◌, List, [], ◌∷◌, Option, none, some, ◌==◌, if◌then◌else◌,
  find, is_text, or_text?,
}
use nodetalk.Prelude.Dict
use nodetalk.Prelude.Dict.{Dict}
use nodetalk.Prelude.IdSet
use nodetalk.Api.{Channel}
use nodetalk.Channels.{Store, has_id}
use nodetalk.Voice.{
  Voice, IncomingCall, rings_in, update_participants, set_incoming_call, reset_handled_call,
  dismiss_incoming_call,
}
use nodetalk.Bridge.{World, Me, notifies, emit}
use nodetalk.Bridge.ChannelName.{is_direct_message}

abbrev pub is_user : String → Option Me → Bool
is_user id none = false
is_user id (some me) = id == me.id

-- The first of these users who is not the user of this page: the caller, or the other member.
unfoldable pub first_other : Option Me → List String → Option String
first_other user = find (λ id. not (is_user id user))

unfoldable pub is_in_call : {Stream : Type 0} → String → Voice Stream → Bool
is_in_call channel_id v = v.is_active && is_text v.active_channel_id channel_id

-- `callerId && otherMemberId === callerId`
unfoldable pub is_other_member : String → Option String → Bool
is_other_member caller none = false
is_other_member caller (some other) = not (caller == "") && other == caller

unfoldable pub call_from : ℕ → Channel → String → IncomingCall
call_from now ch caller = record {
  channel_id = ch.id;
  caller_id = caller;
  caller_username = or_text? (Dict.lookup caller ch.member_names) "Someone";
  caller_avatar_id = Dict.lookup caller ch.member_avatars;
  timestamp = now;
}

-- The call that starts to ring, if any.
unfoldable pub ringing :
    {Stream : Type 0}
    → ℕ
    → Option Channel
    → String
    → List String
    → World Stream
    → Option IncomingCall
unfolding first_other is_in_call is_other_member call_from
ringing now none channel_id users w = none
ringing now (some ch) channel_id users w =
    if is_direct_message ch
      && not (is_in_call channel_id w.voice)
      && not (IdSet.has channel_id w.voice.handled_call_channels)
    then elim (first_other w.user users) [
      | none ↦ none
      | some caller ↦
          if is_other_member caller (first_other w.user ch.members)
          then some (call_from now ch caller)
          else none
    ]
    else none

module _ {Stream : Type 0} where
  unfoldable pub ring : Option IncomingCall → World Stream → World Stream
  unfolding emit
  ring none w = w
  ring (some call) w =
      emit
        (notifies
            (String.◌++◌ "Incoming Call: " (String.◌++◌ call.caller_username " is calling you..."))
          ∷ [])
        (record w { voice = set_incoming_call (some call) w.voice })

  unfoldable pub check_incoming_call : ℕ → String → List String → World Stream → World Stream
  unfolding ringing ring
  check_incoming_call now channel_id [] w = w
  check_incoming_call now channel_id (u ∷ users) w =
      ring (ringing now (find (has_id channel_id) w.channels.channels) channel_id (u ∷ users) w) w

  unfoldable pub check_all : ℕ → Dict (List String) → World Stream → World Stream
  unfolding check_incoming_call
  check_all now [] w = w
  check_all now ((channel_id, users) ∷ rest) w =
      check_all now rest (check_incoming_call now channel_id users w)

  -- The subscription: the channel store now holds another list.
  unfoldable pub on_channels : ℕ → Store → World Stream → World Stream
  unfolding check_all
  on_channels now channels w =
      let v = record w { channels = channels } in
      elim channels.channels as (λ _. World Stream) [
        | [] ↦ v
        | _ ↦ check_all now v.voice.participants v
      ]

  unfoldable pub call_ended : String → Voice Stream → Voice Stream
  call_ended channel_id v =
      let reset = reset_handled_call channel_id v in
      if rings_in channel_id v.incoming_call then dismiss_incoming_call reset else reset

  -- A payload without a channel does nothing.
  unfoldable pub on_voice_update : ℕ → String → List String → World Stream → World Stream
  unfolding call_ended check_incoming_call
  on_voice_update now channel_id users w =
      let v = record w { voice = update_participants channel_id users w.voice } in
      let v' = elim users as (λ _. World Stream) [
        | [] ↦ record v { voice = call_ended channel_id v.voice }
        | _ ↦ check_incoming_call now channel_id users v
      ] in
      if channel_id == "" then w else v'
