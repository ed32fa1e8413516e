-- ===== src/Rtc/Tests.antt =====
-- The theorems on a call at concrete inputs.
use nodetalk.Prelude.{◌≡◌, refl, true, false, List, [], ◌∷◌, none, some}
use nodetalk.Prelude.Dict
use nodetalk.Prelude.IdSet
use nodetalk.Voice.{Voice, load_page, load_handled_calls}
use nodetalk.Rtc.{Rtc, MediaStream, Pc, Sdp, publish, new_pc}
use nodetalk.Rtc.Call.{Joined}
use nodetalk.Rtc.Candidates.{
  Signal, ice_candidate, publish_answer, receive_all, arrived, waits, candidates_in_order,
}
use nodetalk.Rtc.Gains.{sets_volume, toggles_mute, attaches, take_all, IsHeard, gains_follow_store}
use nodetalk.Rtc.Media.{offered}
use nodetalk.Rtc.Screen.{shared, no_screen, use_settings, toggle_screen_share}
use nodetalk.Rtc.Naming.{AreNamed}
use nodetalk.Rtc.Sharing.{in_call, while_shared, after_sharing, toggle_screen_share_lem}

abbrev voice : Voice MediaStream
unfolding load_page load_handled_calls
voice = load_page true none none

abbrev fresh : Rtc
fresh = record {
  channel_id = none;
  publish_pc = none;
  subscribe_pc = none;
  local_audio_track = none;
  local_video_track = none;
  local_screen_track = none;
  local_screen_audio_track = none;
  local_audio_sender = none;
  local_video_sender = none;
  local_screen_sender = none;
  local_screen_audio_sender = none;
  can_audio = true;
  audio_context = false;
  local_analyser = false;
  remote_audio_nodes = [];
  remote_screen_audio_nodes = [];
  remote_analysers = [];
  speaker_last_spoke = [];
  vad_interval = false;
  ping_interval = false;
  listening = none;
  pending_publish_candidates = [];
  pending_subscribe_candidates = [];
  pending_subscribe_offer = none;
  is_connecting = false;
  voice = voice;
  user_id = some "me";
  time = "10:00";
  sent = [];
  stopped = [];
  asked = [];
}

-- In the call of channel c, with a microphone, where u is heard and muted.
abbrev calling : Rtc
calling = record fresh {
  channel_id = some "c";
  publish_pc = some new_pc;
  subscribe_pc = some new_pc;
  local_audio_track = some (record { id = "mic"; enabled = true });
  remote_audio_nodes = ("u", 0) ∷ [];
  is_connecting = true;
  voice = record voice { user_mutes = "u" ∷ [] };
}

abbrev sdp : Sdp
sdp = record { kind = "offer"; lines = "v=0" ∷ "a=msid:s t" ∷ "a=msid:m mic" ∷ [] }

abbrev signals : List Signal
signals =
    ice_candidate "c" publish "k1"
    ∷ publish_answer "c" sdp none
    ∷ ice_candidate "d" publish "other"
    ∷ ice_candidate "c" publish "k2"
    ∷ []

candidates_in_order_example :
    (arrived publish (receive_all signals calling) ≡ "k1" ∷ "k2" ∷ [])
    × ((waits
            (receive_all signals calling).publish_pc
            (receive_all signals calling).pending_publish_candidates
          ≡ false)
        × (waits
              (receive_all signals calling).subscribe_pc
              (receive_all signals calling).pending_subscribe_candidates
            ≡ false))
candidates_in_order_example = candidates_in_order publish signals calling (refl, refl)

gains_follow_store_example :
    IsHeard "u" (take_all (sets_volume "u" 50 ∷ toggles_mute "u" ∷ attaches "v" ∷ []) calling)
unfolding voice Dict.lookup IdSet.has
gains_follow_store_example =
    gains_follow_store "u" (sets_volume "u" 50 ∷ toggles_mute "u" ∷ attaches "v" ∷ []) calling refl

abbrev microphone : Pc
microphone = record new_pc { senders = "mic" ∷ [] }

toggle_screen_share_lem_example :
    let s =
      toggle_screen_share none
        (shared "t" "s" (some "a"))
        (offered sdp)
        (in_call "c" microphone calling) in
    (named : Sdp) × (named.kind ≡ "offer")
    × AreNamed ("t" ∷ "a" ∷ []) sdp.lines named.lines
    × (s ≡ while_shared "c" "t" "s" (some "a") microphone sdp named (use_settings none calling))
    × (toggle_screen_share none no_screen (offered sdp) s
        ≡ after_sharing "c" "t" "s" (some "a") microphone named sdp (use_settings none calling))
toggle_screen_share_lem_example =
    toggle_screen_share_lem "c" "t" "s" (some "a") microphone sdp sdp none none no_screen calling
      refl (refl, tt) ((refl, tt), tt)

abbrev payload : Joined
payload = record { channel_id = "c"; ice_servers = []; participants = [] }

abbrev heard : Rtc
heard = record calling { remote_analysers = "u" ∷ [] }
