-- ===== src/Rtc/Audio.antt =====
-- client-web/src/rtc/WebRTCManager.ts: the audio of the other participants, how loud it is, and the
-- own microphone.
use nodetalk.Prelude.{
  ℕ, String, Bool, true, false, not, ◌&&◌, ◌||◌, [], ◌∷◌, Option, none, some, if◌then◌else◌,
  or_default, is_some,
}
use nodetalk.Prelude.Dict
use nodetalk.Prelude.Dict.{Dict}
use nodetalk.Prelude.IdSet
use nodetalk.Voice.{Voice, set_ping, or_null}
use nodetalk.Voice.Streams.{
  audio, set_screen_share_volume, toggle_screen_share_mute, set_user_volume, toggle_user_mute,
}
use nodetalk.Rtc.{
  Rtc, MediaStream, ws_send_call, set_internal, set_voice, no_change, call_track_state,
}

-- `initAudioContext`: the context, where there is one.
unfoldable pub init_audio_context : Rtc → Rtc
init_audio_context r = record r { audio_context = r.audio_context || r.can_audio }

abbrev pub is_screen_muted : String → Voice MediaStream → Bool
is_screen_muted user_id v =
    or_default (Dict.lookup user_id v.screen_share_mutes) false || v.is_deafened

abbrev pub is_user_muted : String → Voice MediaStream → Bool
is_user_muted user_id v = IdSet.has user_id v.user_mutes || v.is_deafened

-- What the gain of a user, or of their shared screen, is set to.
abbrev pub user_gain : String → Voice MediaStream → ℕ
user_gain user_id v =
    if is_user_muted user_id v then 0 else or_default (Dict.lookup user_id v.user_volumes) 100

abbrev pub screen_gain : String → Voice MediaStream → ℕ
screen_gain user_id v =
    if is_screen_muted user_id v
    then 0
    else or_default (Dict.lookup user_id v.screen_share_volumes) 100

-- `node.gainNode.gain.value = gain`, where there is a node.
unfoldable pub set_gain : String → ℕ → Dict ℕ → Dict ℕ
set_gain user_id gain nodes =
    if is_some (Dict.lookup user_id nodes) then Dict.insert user_id gain nodes else nodes

unfoldable pub rtc_set_screen_share_volume : String → ℕ → Rtc → Rtc
unfolding set_gain
rtc_set_screen_share_volume user_id volume r =
    let v = set_screen_share_volume user_id volume r.voice in
    record r {
      voice = v;
      remote_screen_audio_nodes =
          set_gain user_id (if is_screen_muted user_id v then 0 else volume)
            r.remote_screen_audio_nodes;
    }

unfoldable pub rtc_toggle_screen_share_mute : String → Rtc → Rtc
unfolding set_gain
rtc_toggle_screen_share_mute user_id r =
    let v = toggle_screen_share_mute user_id r.voice in
    record r {
      voice = v;
      remote_screen_audio_nodes =
          set_gain user_id (screen_gain user_id v) r.remote_screen_audio_nodes;
    }

unfoldable pub set_participant_volume : String → ℕ → Rtc → Rtc
unfolding set_gain
set_participant_volume user_id volume r =
    let v = set_user_volume user_id volume r.voice in
    record r {
      voice = v;
      remote_audio_nodes =
          set_gain user_id (if is_user_muted user_id v then 0 else volume) r.remote_audio_nodes;
    }

unfoldable pub toggle_participant_mute : String → Rtc → Rtc
unfolding set_gain
toggle_participant_mute user_id r =
    let v = toggle_user_mute user_id r.voice in
    record r {
      voice = v;
      remote_audio_nodes = set_gain user_id (user_gain user_id v) r.remote_audio_nodes;
    }

unfoldable pub set_all_gains : ℕ → Dict ℕ → Dict ℕ
set_all_gains gain [] = []
set_all_gains gain ((user_id, _) ∷ nodes) = (user_id, gain) ∷ set_all_gains gain nodes

unfoldable pub toggle_deafen : Rtc → Rtc
unfolding set_internal set_all_gains
toggle_deafen r =
    let next_deafened = not r.voice.is_deafened in
    record (set_internal (record no_change { is_deafened = some next_deafened }) r) {
      remote_audio_nodes = set_all_gains (if next_deafened then 0 else 100) r.remote_audio_nodes;
    }

unfoldable pub toggle_mute : Rtc → Rtc
unfolding set_internal ws_send_call
toggle_mute r = elim r.local_audio_track [
  | none ↦ r
  | some track ↦
      let next_muted = not r.voice.is_muted in
      let muted =
        set_internal (record no_change { is_muted = some next_muted })
          (record r { local_audio_track = some (record track { enabled = not next_muted }) }) in
      elim (or_null r.channel_id) [
        | none ↦ muted
        | some c ↦ ws_send_call (call_track_state c audio (not next_muted) none) muted
      ]
]

unfoldable pub remove_remote_audio : String → Rtc → Rtc
remove_remote_audio user_id r = record r {
  remote_audio_nodes = Dict.erase user_id r.remote_audio_nodes;
  remote_analysers = IdSet.delete user_id r.remote_analysers;
  speaker_last_spoke = Dict.erase user_id r.speaker_last_spoke;
}

unfoldable pub remove_remote_screen_audio : String → Rtc → Rtc
remove_remote_screen_audio user_id r = record r {
  remote_screen_audio_nodes = Dict.erase user_id r.remote_screen_audio_nodes;
}

-- `has_source` is false when the browser throws while the nodes are made; the node is then made with
-- the gain that a new one has.
unfoldable pub attach_remote_audio : Bool → String → Rtc → Rtc
unfolding init_audio_context remove_remote_audio
attach_remote_audio has_source user_id r =
    let s = remove_remote_audio user_id (init_audio_context r) in
    if not s.audio_context
    then s
    else if has_source
    then record s {
      remote_audio_nodes = Dict.insert user_id (user_gain user_id s.voice) s.remote_audio_nodes;
      remote_analysers = IdSet.add user_id s.remote_analysers;
    }
    else record s { remote_audio_nodes = Dict.insert user_id 100 s.remote_audio_nodes }

unfoldable pub attach_remote_screen_audio : Bool → String → Rtc → Rtc
unfolding init_audio_context remove_remote_screen_audio
attach_remote_screen_audio has_source user_id r =
    let s = remove_remote_screen_audio user_id (init_audio_context r) in
    if s.audio_context && has_source
    then record s {
      remote_screen_audio_nodes =
          Dict.insert user_id (screen_gain user_id s.voice) s.remote_screen_audio_nodes;
    }
    else s

unfoldable pub setup_local_analyser : Rtc → Rtc
unfolding init_audio_context
setup_local_analyser r =
    let s = init_audio_context r in
    if s.audio_context then record s { local_analyser = true } else s

unfoldable pub stop_ping_monitoring : Rtc → Rtc
unfolding set_voice
stop_ping_monitoring r = set_voice (set_ping none r.voice) (record r { ping_interval = false })

unfoldable pub start_ping_monitoring : Rtc → Rtc
start_ping_monitoring r = record r { ping_interval = true }

-- The round trip time of the last candidate pair that reports one, in milliseconds.
unfoldable pub query_stats : Option ℕ → Rtc → Rtc
unfolding set_voice
query_stats rtt r =
    if is_some r.publish_pc || is_some r.subscribe_pc
    then elim rtt [ none ↦ r | some ms ↦ set_voice (set_ping (some ms) r.voice) r ]
    else r

unfoldable pub cleanup_audio : Rtc → Rtc
unfolding stop_ping_monitoring
cleanup_audio r = record (stop_ping_monitoring (record r { vad_interval = false })) {
  remote_audio_nodes = [];
  remote_analysers = [];
  speaker_last_spoke = [];
  local_analyser = false;
  audio_context = false;
}
