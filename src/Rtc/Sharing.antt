-- ===== src/Rtc/Sharing.antt =====
-- Sharing the screen and stopping it again: what is sent, what runs, and what the store shows.
use mathlib.Core.List.{append_assoc}
use nodetalk.Prelude.{
  ◌≡◌, ◌∙◌, refl, ap, String, true, false, List, [], ◌∷◌, ◌++◌, All, filter, not, Option, none,
  some, ◌==◌, is_some,
}
use nodetalk.Voice.Streams.{SettingsChange, screen, set_screen_share_settings}
use nodetalk.Voice.Actions.{set_internal_state}
use nodetalk.Rtc.{
  Rtc, Pc, Sdp, call_publish_offer, call_track_state, ws_send_call, set_internal, set_voice,
  to_list,
}
use nodetalk.Rtc.Media.{offered, publishing, munge, renegotiate_publish}
use nodetalk.Rtc.Naming.{AreNamed, munge-AreNamed}
use nodetalk.Rtc.Senders.{IsNew, removed_one, removed_both, munge_none}
use nodetalk.Rtc.Screen.{
  Shared, shared, screen_on, screen_off, save_settings, use_settings, toggle_screen_share,
}

-- A call in channel c over this connection, in which no screen is shared.
abbrev pub in_call : String → Pc → Rtc → Rtc
in_call c pc r = record r {
  channel_id = some c;
  publish_pc = some pc;
  local_screen_track = none;
  local_screen_audio_track = none;
  local_screen_sender = none;
  local_screen_audio_sender = none;
  voice = record r.voice { is_screen_sharing = false; local_screen_stream = none };
}

-- The same call while a screen is shared, by these tracks.
abbrev pub while_shared : String → String → String → Option String → Pc → Sdp → Sdp → Rtc → Rtc
while_shared c track stream audio pc sdp named r = record r {
  channel_id = some c;
  publish_pc =
      some
        (record pc { local_description = some sdp; senders = pc.senders ++ track ∷ to_list audio });
  local_screen_track = some track;
  local_screen_audio_track = audio;
  local_screen_sender = some track;
  local_screen_audio_sender = audio;
  voice = record r.voice {
    is_screen_sharing = true;
    local_screen_stream = some (record { id = stream; tracks = track ∷ to_list audio });
    spotlight_stream_id = some "local";
  };
  sent =
      r.sent
      ++ call_track_state c screen true (some (track, stream)) ∷ call_publish_offer c named ∷ [];
}

renegotiated :
    (c : String) (pc : Pc) (ids : List String) (sdp : Sdp) (r : Rtc)
    → (c == "") ≡ false
    → renegotiate_publish ids (offered sdp) (record r { channel_id = some c; publish_pc = some pc })
      ≡ ws_send_call (call_publish_offer c (munge ids sdp)) (record r {
        channel_id = some c;
        publish_pc = some (record pc { local_description = some sdp });
      })
unfolding renegotiate_publish
renegotiated c pc ids sdp r h = rw (h, renegotiate_publish) refl

switched_on :
    (c track stream : String) (audio : Option String) (pc : Pc) (sdp : Sdp) (r : Rtc)
    → (c == "") ≡ false
    → screen_on (shared track stream audio) (offered sdp) (in_call c pc r)
      ≡ while_shared c track stream audio pc sdp (munge (track ∷ to_list audio) sdp) r
unfolding screen_on renegotiate_publish set_internal set_internal_state ws_send_call
switched_on c track stream none pc sdp r h =
    rw (h, screen_on)
      (renegotiated c (record pc { senders = pc.senders ++ track ∷ [] }) (track ∷ []) sdp
          (record (while_shared c track stream none pc sdp (munge (track ∷ to_list none) sdp) r) {
            sent = r.sent ++ call_track_state c screen true (some (track, stream)) ∷ [];
          })
          h
        ∙ rw
            (append_assoc r.sent (call_track_state c screen true (some (track, stream)) ∷ [])
              (call_publish_offer c (munge (track ∷ []) sdp) ∷ []))
            refl)
switched_on c track stream (some a) pc sdp r h =
    rw (h, screen_on)
      (renegotiated c (record pc { senders = (pc.senders ++ track ∷ []) ++ a ∷ [] })
          (track ∷ a ∷ []) sdp
          (record (while_shared c track stream (some a) pc sdp
            (munge (track ∷ to_list (some a)) sdp) r) {
              sent = r.sent ++ call_track_state c screen true (some (track, stream)) ∷ [];
            })
          h
        ∙ rw
            (
              append_assoc r.sent (call_track_state c screen true (some (track, stream)) ∷ [])
                  (call_publish_offer c (munge (track ∷ a ∷ []) sdp) ∷ []),
              append_assoc pc.senders (track ∷ []) (a ∷ []),
            )
            refl)

-- The same call after the screen was shared and stopped.
abbrev pub after_sharing : String → String → String → Option String → Pc → Sdp → Sdp → Rtc → Rtc
after_sharing c track stream audio pc named off r = record r {
  channel_id = some c;
  publish_pc = some (record pc { local_description = some off });
  local_screen_track = none;
  local_screen_audio_track = none;
  local_screen_sender = none;
  local_screen_audio_sender = none;
  voice = record r.voice {
    is_screen_sharing = false;
    local_screen_stream = none;
    spotlight_stream_id = none;
  };
  stopped = r.stopped ++ track ∷ to_list audio;
  sent =
      r.sent
      ++ call_track_state c screen true (some (track, stream))
        ∷ call_publish_offer c named
        ∷ call_track_state c screen false none
        ∷ call_publish_offer c off
        ∷ [];
}

switched_off :
    (c track stream : String) (audio : Option String) (pc : Pc) (on off : Sdp) (r : Rtc)
    → (c == "") ≡ false
    → IsNew track pc.senders
    → All (λ a. IsNew a pc.senders) (to_list audio)
    → screen_off
        (offered off)
        (while_shared c track stream audio pc on (munge (track ∷ to_list audio) on) r)
      ≡ after_sharing c track stream audio pc (munge (track ∷ to_list audio) on) off r
unfolding screen_off set_internal set_internal_state ws_send_call
switched_off c track stream none pc on off r h k l =
    let f1 = call_track_state c screen true (some (track, stream)) in
    let f2 = call_publish_offer c (munge (track ∷ []) on) in
    let f3 = call_track_state c screen false none in
    renegotiated c
      (record pc {
        local_description = some on;
        senders = filter (λ s. not (s == track)) (pc.senders ++ track ∷ []);
      })
      [] off
      (record (after_sharing c track stream none pc (munge (track ∷ to_list none) on) off r) {
        stopped = (r.stopped ++ track ∷ []) ++ [];
        sent = (r.sent ++ f1 ∷ f2 ∷ []) ++ f3 ∷ [];
      })
      h
    ∙ rw
        (
          append_assoc r.stopped (track ∷ []) [],
          removed_one track pc.senders k,
          munge_none off,
          append_assoc (r.sent ++ f1 ∷ f2 ∷ []) (f3 ∷ []) (call_publish_offer c off ∷ []),
          append_assoc r.sent (f1 ∷ f2 ∷ []) (f3 ∷ call_publish_offer c off ∷ []),
        )
        refl
switched_off c track stream (some a) pc on off r h k (l, _) =
    let f1 = call_track_state c screen true (some (track, stream)) in
    let f2 = call_publish_offer c (munge (track ∷ a ∷ []) on) in
    let f3 = call_track_state c screen false none in
    renegotiated c
      (record pc {
        local_description = some on;
        senders =
            filter (λ s. not (s == a))
              (filter (λ s. not (s == track)) (pc.senders ++ track ∷ a ∷ []));
      })
      [] off
      (record (after_sharing c track stream (some a) pc (munge (track ∷ to_list (some a)) on) off
        r) {
          stopped = (r.stopped ++ track ∷ []) ++ a ∷ [];
          sent = (r.sent ++ f1 ∷ f2 ∷ []) ++ f3 ∷ [];
        })
      h
    ∙ rw
        (
          append_assoc r.stopped (track ∷ []) (a ∷ []),
          removed_both track a pc.senders k l,
          munge_none off,
          append_assoc (r.sent ++ f1 ∷ f2 ∷ []) (f3 ∷ []) (call_publish_offer c off ∷ []),
          append_assoc r.sent (f1 ∷ f2 ∷ []) (f3 ∷ call_publish_offer c off ∷ []),
        )
        refl

settings_in_call :
    (c : String) (pc : Pc) (change : Option SettingsChange) (r : Rtc)
    → use_settings change (in_call c pc r) ≡ in_call c pc (use_settings change r)
unfolding use_settings save_settings set_voice set_screen_share_settings
settings_in_call c pc none r = refl
settings_in_call c pc (some change) r = refl

toggled_on :
    (c track stream : String) (audio : Option String) (pc : Pc) (sdp : Sdp)
    (change : Option SettingsChange) (r : Rtc)
    → (c == "") ≡ false
    → toggle_screen_share change (shared track stream audio) (offered sdp) (in_call c pc r)
      ≡ while_shared c track stream audio pc sdp
          (munge (track ∷ to_list audio) sdp)
          (use_settings change r)
unfolding toggle_screen_share
toggled_on c track stream audio pc sdp change r h =
    rw (h, toggle_screen_share, is_some, publishing)
      (ap (screen_on (shared track stream audio) (offered sdp)) (settings_in_call c pc change r)
        ∙ switched_on c track stream audio pc sdp (use_settings change r) h)

toggled_off :
    (c track stream : String) (audio : Option String) (pc : Pc) (on off : Sdp)
    (change : Option SettingsChange) (picked : Shared) (r : Rtc)
    → (c == "") ≡ false
    → toggle_screen_share change picked
        (offered off)
        (while_shared c track stream audio pc on (munge (track ∷ to_list audio) on) r)
      ≡ screen_off
          (offered off)
          (while_shared c track stream audio pc on (munge (track ∷ to_list audio) on) r)
unfolding toggle_screen_share
toggled_off c track stream audio pc on off change picked r h =
    rw (h, toggle_screen_share, is_some, publishing) refl

-- In a call without a shared screen, in a channel whose id is not empty, a screen is shared, with or
-- without its audio, by tracks that are not sent yet, and stopped again, where the browser makes both
-- offers. While it is shared, its tracks are sent after the others and it is in the spotlight; the
-- server got what is shared, and an offer with the lines of the browser's, but that a line "a=msid:" with
-- the id of a shared track is now "a=msid:screen " and the id of a shared track that it names. Afterwards the others are
-- sent in their order, the tracks of the screen were stopped, neither the manager nor the store holds
-- any of it, nothing is in the spotlight, and the server got that it is off, with an offer as the
-- browser made it. But for that only the settings change, and what the browser was asked for.
pub toggle_screen_share_lem :
    (c track stream : String) (audio : Option String) (pc : Pc) (on off : Sdp)
    (change other : Option SettingsChange) (picked : Shared) (r : Rtc)
    → (c == "") ≡ false
    → IsNew track pc.senders
    → All (λ a. IsNew a pc.senders) (to_list audio)
    → let s =
        toggle_screen_share change (shared track stream audio) (offered on) (in_call c pc r) in
      (named : Sdp) × (named.kind ≡ on.kind)
      × AreNamed (track ∷ to_list audio) on.lines named.lines
      × (s ≡ while_shared c track stream audio pc on named (use_settings change r))
      × (toggle_screen_share other picked (offered off) s
          ≡ after_sharing c track stream audio pc named off (use_settings change r))
unfolding munge
toggle_screen_share_lem c track stream audio pc on off change other picked r h k l =
    let q = use_settings change r in
    let shown = toggled_on c track stream audio pc on change r h in
    (
      munge (track ∷ to_list audio) on,
      refl,
      munge-AreNamed (track ∷ to_list audio) on.lines,
      shown,
      ap (toggle_screen_share other picked (offered off)) shown
          ∙ toggled_off c track stream audio pc on off other picked q h
          ∙ switched_off c track stream audio pc on off q h k l,
    )
