-- ===== src/Rtc/Gains.antt =====
-- How loud the other participants are, against the volumes and mutes of the voice store.
use nodetalk.Prelude.{
  ℕ, ◌≡◌, refl, String, true, ◌||◌, List, [], ◌∷◌, none, some, arith, ◌==◌, eq_iff, if◌then◌else◌,
  is_some,
}
use nodetalk.Prelude.Dict
use nodetalk.Prelude.Dict.{Dict, lookup-insert, lookup-erase}
use nodetalk.Prelude.IdSet
use nodetalk.Prelude.IdSet.{has-add, has-delete}
use nodetalk.Voice.Streams.{set_user_volume, toggle_user_mute}
use nodetalk.Voice.Actions.{set_internal_state}
use nodetalk.Rtc.{Rtc, set_internal}
use nodetalk.Rtc.Audio.{
  init_audio_context, user_gain, set_gain, set_participant_volume, toggle_participant_mute,
  set_all_gains, toggle_deafen, remove_remote_audio, attach_remote_audio,
}

-- What the user and the connection do to the audio of the participants.
pub data Step : Type 0 where
  sets_volume : String → ℕ → Step
  toggles_mute : String → Step
  attaches : String → Step
  removes : String → Step

unfoldable pub take : Step → Rtc → Rtc
unfolding set_participant_volume toggle_participant_mute attach_remote_audio remove_remote_audio
take (sets_volume user_id volume) r = set_participant_volume user_id volume r
take (toggles_mute user_id) r = toggle_participant_mute user_id r
take (attaches user_id) r = attach_remote_audio true user_id r
take (removes user_id) r = remove_remote_audio user_id r

unfoldable pub take_all : List Step → Rtc → Rtc
unfolding take
take_all [] r = r
take_all (s ∷ steps) r = take_all steps (take s r)

-- The gain of u, if u is heard at all, is the one that the store asks for.
abbrev pub IsHeard : String → Rtc → Type 0
IsHeard u r =
    Dict.lookup u r.remote_audio_nodes
    ≡ (if is_some (Dict.lookup u r.remote_audio_nodes) then some (user_gain u r.voice) else none)

lookup-set_gain :
    (w u : String) (gain : ℕ) (nodes : Dict ℕ)
    → Dict.lookup u (set_gain w gain nodes) ≡ (
        if w == u
        then (if is_some (Dict.lookup w nodes) then some gain else none)
        else Dict.lookup u nodes)
unfolding set_gain
lookup-set_gain w u gain nodes = ground (arith, lookup-insert w u gain nodes, eq_iff w u)

lookup-set_all_gains :
    (u : String) (gain : ℕ) (nodes : Dict ℕ)
    → Dict.lookup u (set_all_gains gain nodes)
      ≡ (if is_some (Dict.lookup u nodes) then some gain else none)
unfolding set_all_gains Dict.lookup
lookup-set_all_gains u gain [] = refl
lookup-set_all_gains u gain ((w, _) ∷ nodes) =
    ground (arith, lookup-set_all_gains u gain nodes, eq_iff w u)

take-IsHeard : (u : String) (s : Step) (r : Rtc) → IsHeard u r → IsHeard u (take s r)
unfolding take set_participant_volume toggle_participant_mute attach_remote_audio
    remove_remote_audio init_audio_context set_user_volume toggle_user_mute
take-IsHeard u (sets_volume w volume) r h = ground (
  arith,
  h,
  eq_iff w u,
  lookup-insert w u volume r.voice.user_volumes,
  lookup-set_gain w u (if IdSet.has w r.voice.user_mutes || r.voice.is_deafened then 0 else volume)
      r.remote_audio_nodes,
)
take-IsHeard u (toggles_mute w) r h =
    let v = toggle_user_mute w r.voice in
    ground (
      arith,
      h,
      eq_iff w u,
      has-add w u r.voice.user_mutes,
      has-delete w u r.voice.user_mutes,
      lookup-set_gain w u (user_gain w v) r.remote_audio_nodes,
    )
take-IsHeard u (attaches w) r h = ground (
  arith,
  h,
  eq_iff w u,
  lookup-erase w u r.remote_audio_nodes,
  lookup-insert w u (user_gain w r.voice) (Dict.erase w r.remote_audio_nodes),
)
take-IsHeard u (removes w) r h = ground (arith, h, lookup-erase w u r.remote_audio_nodes)

-- Whatever volumes are set and mutes toggled, and whoever's audio comes and goes (where the browser
-- makes the nodes for it): if the gain of participant u was what the store asks for, it stays so, 0
-- where u is muted or all are deafened and the volume of u else.
pub gains_follow_store :
    (u : String) (steps : List Step) (r : Rtc) → IsHeard u r → IsHeard u (take_all steps r)
unfolding take_all
gains_follow_store u [] r h = h
gains_follow_store u (s ∷ steps) r h = gains_follow_store u steps (take s r) (take-IsHeard u s r h)

-- Undeafening turns a participant u who is heard but muted up to the full gain, although the store
-- still asks for 0; and neither deafening nor undeafening touches the audio of shared screens.
pub undeafen_unmutes :
    (u : String) (r : Rtc)
    → IdSet.has u r.voice.user_mutes ≡ true
    → is_some (Dict.lookup u r.remote_audio_nodes) ≡ true
    → let t = toggle_deafen (record r { voice = record (r.voice) { is_deafened = true } }) in
      (Dict.lookup u t.remote_audio_nodes ≡ some 100)
      × (user_gain u t.voice ≡ 0)
      × (t.remote_screen_audio_nodes ≡ r.remote_screen_audio_nodes)
unfolding toggle_deafen set_internal set_internal_state
undeafen_unmutes u r h k =
    (ground (arith, k, lookup-set_all_gains u 100 r.remote_audio_nodes), ground (arith, h), refl)
