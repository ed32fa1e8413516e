-- ===== src/Rtc/Leaving.antt =====
-- The end of a call, and what goes on when the user leaves while the microphone is being asked for.
use nodetalk.Prelude.{
  ℕ, ◌≡◌, refl, String, Bool, true, false, not, [], ◌∷◌, ◌++◌, none, some, arith, ◌==◌, eq_refl,
}
use nodetalk.Voice.{connected, add_log}
use nodetalk.Voice.Leave.{IsOutOfCall}
use nodetalk.Voice.Actions.{set_internal_state}
use nodetalk.Rtc.{
  Rtc, Sdp, call_leave, call_subscribe_answer, to_list, ws_send_call, log, set_voice, set_internal,
}
use nodetalk.Rtc.Audio.{stop_ping_monitoring, cleanup_audio}
use nodetalk.Rtc.Media.{
  acquired, Offered, track_ids, stop_local_tracks, create_local_stream, renegotiate_publish,
}
use nodetalk.Rtc.Signals.{
  Answered, answered, on_call_subscribe_offer, handle_subscribe_offer, accept_offer,
  flush_pending_candidates,
}
use nodetalk.Rtc.Call.{
  Joined, leave_channel, leave, call_joined_start, use_buffered_offer, call_joined_microphone,
  call_joined_finish,
}

-- Nothing of a call is held: no connection, track, sender, timer, listener or candidate, and of the
-- audio no context, node or analyser.
abbrev pub HoldsNothing : Rtc → Type 0
HoldsNothing r =
    (r.channel_id ≡ none)
    × (r.is_connecting ≡ false)
    × (r.publish_pc ≡ none)
    × (r.subscribe_pc ≡ none)
    × (r.local_audio_track ≡ none)
    × (r.local_video_track ≡ none)
    × (r.local_screen_track ≡ none)
    × (r.local_screen_audio_track ≡ none)
    × (r.local_audio_sender ≡ none)
    × (r.local_video_sender ≡ none)
    × (r.local_screen_sender ≡ none)
    × (r.local_screen_audio_sender ≡ none)
    × (r.audio_context ≡ false)
    × (r.local_analyser ≡ false)
    × (r.speaker_last_spoke ≡ [])
    × (r.remote_audio_nodes ≡ [])
    × (r.remote_analysers ≡ [])
    × (r.vad_interval ≡ false)
    × (r.ping_interval ≡ false)
    × (r.listening ≡ none)
    × (r.pending_publish_candidates ≡ [])
    × (r.pending_subscribe_candidates ≡ [])
    × (r.pending_subscribe_offer ≡ none)

leave_named :
    (c : String) (r : Rtc)
    → (c == "") ≡ false
    → leave (record r { channel_id = some c }) ≡ leave_channel c (record r { channel_id = some c })
unfolding leave
leave_named c r h = rw (leave, h) refl

-- What is left of `r` when its call in channel c ends as `t`.
abbrev pub HasLeft : String → Rtc → Rtc → Type 0
HasLeft c r t =
    HoldsNothing t
    × IsOutOfCall t.voice
    × (t.sent ≡ r.sent ++ call_leave c ∷ [])
    × (t.stopped
        ≡ r.stopped
          ++ track_ids r.local_audio_track
          ++ to_list r.local_video_track
          ++ to_list r.local_screen_track
          ++ to_list r.local_screen_audio_track)
    × (leave t ≡ t)
    × (t.remote_screen_audio_nodes ≡ r.remote_screen_audio_nodes)

-- An offer that comes before the connection for it is answered when the call is joined: once, with its
-- candidates, and nothing stays in the buffer.
pub early_offer_answered :
    (c : String) (sdp answer : Sdp) (early : Answered) (show_number : ℕ → String) (payload : Joined)
    (r : Rtc)
    → (c == "") ≡ false
    → let waiting = record r { channel_id = some c; subscribe_pc = none } in
      let t =
        call_joined_start show_number payload
          (answered answer)
          (on_call_subscribe_offer c sdp early waiting) in
      (t.sent ≡ r.sent ++ call_subscribe_answer c answer ∷ [])
      × (t.pending_subscribe_offer ≡ none)
      × (t.pending_subscribe_candidates ≡ [])
      × (t.subscribe_pc
          ≡ some (record {
            local_description = some answer;
            remote_description = some sdp;
            candidates = r.pending_subscribe_candidates;
            senders = [];
          }))
unfolding call_joined_start use_buffered_offer on_call_subscribe_offer handle_subscribe_offer
    accept_offer flush_pending_candidates ws_send_call log set_voice add_log
early_offer_answered c sdp answer early show_number payload r h = (
  ground (arith, h, eq_refl c),
  ground (arith, h, eq_refl c),
  ground (arith, h, eq_refl c),
  ground (arith, h, eq_refl c),
)

no_call :
    (c track stream_id : String) (muted : Bool) (answer : Offered) (r : Rtc)
    → let t = call_joined_finish c muted stream_id answer (
        call_joined_microphone muted
          (acquired track)
          (record r { channel_id = none; publish_pc = none; local_video_track = none })) in
      (t.channel_id ≡ none)
      × (t.local_audio_track ≡ some (record { id = track; enabled = not muted }))
      × (t.stopped ≡ r.stopped)
      × (t.voice.call_status ≡ connected)
      × (t.vad_interval ≡ true)
unfolding ws_send_call log call_joined_finish call_joined_microphone set_internal set_internal_state
    renegotiate_publish create_local_stream
no_call c track stream_id muted answer r = (refl, refl, refl, refl, refl)

asking :
    (c track stream_id : String) (muted : Bool) (answer : Offered) (r : Rtc)
    → let left = leave_channel c r in
      let t =
        call_joined_finish c muted stream_id answer
          (call_joined_microphone muted (acquired track) left) in
      (t.channel_id ≡ none)
      × (t.local_audio_track ≡ some (record { id = track; enabled = not muted }))
      × (t.stopped ≡ left.stopped)
      × (t.voice.call_status ≡ connected)
      × (t.vad_interval ≡ true)
unfolding leave_channel ws_send_call log set_voice stop_local_tracks stop_ping_monitoring
    cleanup_audio
asking c track stream_id muted answer r = no_call c track stream_id muted answer (leave_channel c r)

-- When the user leaves the call in channel c while the browser still asks for the microphone, and then
-- allows it, the handler goes on: the microphone stays on and is not among the tracks that were
-- stopped, and the store says that a call is connected, although there is none.
pub leave_while_asking :
    (c track stream_id : String) (muted : Bool) (answer : Offered) (r : Rtc)
    → (c == "") ≡ false
    → let left = leave (record r { channel_id = some c }) in
      let t =
        call_joined_finish c muted stream_id answer
          (call_joined_microphone muted (acquired track) left) in
      (t.channel_id ≡ none)
      × (t.local_audio_track ≡ some (record { id = track; enabled = not muted }))
      × (t.stopped ≡ left.stopped)
      × (t.voice.call_status ≡ connected)
      × (t.vad_interval ≡ true)
leave_while_asking c track stream_id muted answer r h =
    rw (leave_named c r h)
      (asking c track stream_id muted answer (record r { channel_id = some c }))
