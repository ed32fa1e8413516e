-- ===== src/Voice/Actions.antt =====
-- client-web/src/store/voiceStore.ts: `_setInternalState`, and every action as data, so that a run of
-- the store is a list of actions.
use nodetalk.Prelude.{ℕ, String, Bool, List, [], ◌∷◌, Option, or_default}
use nodetalk.Voice.{
  Voice, CallStatus, IncomingCall, join_voice, leave_voice, set_incoming_call,
  dismiss_incoming_call, mark_call_handled, reset_handled_call, set_ping, update_participants,
  add_log, clear_logs,
}
use nodetalk.Voice.Streams.{
  TrackKind, SettingsChange, set_remote_stream, set_remote_screen_stream, remove_remote_stream,
  set_track_state, set_preferred_camera_id, set_active_presenter_id, set_spotlight_stream_id,
  set_screen_share_settings, set_screen_share_volume, toggle_screen_share_mute, set_user_volume,
  toggle_user_mute,
}

-- The keys that a caller of `_setInternalState` passes, and their values.
pub record Internal (Stream : Type 0) : Type 0 where
  pub active_channel_id : Option (Option String)
  pub is_active : Option Bool
  pub call_status : Option CallStatus
  pub is_muted : Option Bool
  pub is_deafened : Option Bool
  pub is_video_enabled : Option Bool
  pub is_screen_sharing : Option Bool
  pub local_stream : Option (Option Stream)
  pub local_screen_stream : Option (Option Stream)
  pub spotlight_stream_id : Option (Option String)
  pub speaking_users : Option (List String)

pub data Action (Stream : Type 0) : Type 0 where
  joins : String → String → Action Stream
  leaves : Action Stream
  sets_incoming : Option IncomingCall → Action Stream
  dismisses : Action Stream
  marks_handled : String → Action Stream
  resets_handled : String → Action Stream
  sets_ping : Option ℕ → Action Stream
  updates_participants : String → List String → Action Stream
  logs : String → String → Action Stream
  clears_logs : Action Stream
  sets_remote : String → Stream → Action Stream
  sets_remote_screen : String → Option Stream → Action Stream
  removes_remote : String → Action Stream
  sets_track : String → TrackKind → Bool → Action Stream
  sets_camera : String → Action Stream
  sets_presenter : Option String → Action Stream
  sets_spotlight : Option String → Action Stream
  sets_settings : SettingsChange → Action Stream
  sets_screen_volume : String → ℕ → Action Stream
  toggles_screen_mute : String → Action Stream
  sets_volume : String → ℕ → Action Stream
  toggles_mute : String → Action Stream
  sets_internal : Internal Stream → Action Stream

module _ {Stream : Type 0} where
  unfoldable pub set_internal_state : Internal Stream → Voice Stream → Voice Stream
  set_internal_state p s = record s {
    active_channel_id = or_default p.active_channel_id s.active_channel_id;
    is_active = or_default p.is_active s.is_active;
    call_status = or_default p.call_status s.call_status;
    is_muted = or_default p.is_muted s.is_muted;
    is_deafened = or_default p.is_deafened s.is_deafened;
    is_video_enabled = or_default p.is_video_enabled s.is_video_enabled;
    is_screen_sharing = or_default p.is_screen_sharing s.is_screen_sharing;
    local_stream = or_default p.local_stream s.local_stream;
    local_screen_stream = or_default p.local_screen_stream s.local_screen_stream;
    spotlight_stream_id = or_default p.spotlight_stream_id s.spotlight_stream_id;
    speaking_users = or_default p.speaking_users s.speaking_users;
  }

  unfoldable pub act : Action Stream → Voice Stream → Voice Stream
  unfolding set_internal_state
  act (joins channel_id time) s = join_voice channel_id time s
  act leaves s = leave_voice s
  act (sets_incoming call) s = set_incoming_call call s
  act dismisses s = dismiss_incoming_call s
  act (marks_handled channel_id) s = mark_call_handled channel_id s
  act (resets_handled channel_id) s = reset_handled_call channel_id s
  act (sets_ping ping) s = set_ping ping s
  act (updates_participants channel_id users) s = update_participants channel_id users s
  act (logs time message) s = add_log time message s
  act clears_logs s = clear_logs s
  act (sets_remote user_id stream) s = set_remote_stream user_id stream s
  act (sets_remote_screen user_id stream) s = set_remote_screen_stream user_id stream s
  act (removes_remote user_id) s = remove_remote_stream user_id s
  act (sets_track user_id kind enabled) s = set_track_state user_id kind enabled s
  act (sets_camera id) s = set_preferred_camera_id id s
  act (sets_presenter id) s = set_active_presenter_id id s
  act (sets_spotlight id) s = set_spotlight_stream_id id s
  act (sets_settings settings) s = set_screen_share_settings settings s
  act (sets_screen_volume user_id volume) s = set_screen_share_volume user_id volume s
  act (toggles_screen_mute user_id) s = toggle_screen_share_mute user_id s
  act (sets_volume user_id volume) s = set_user_volume user_id volume s
  act (toggles_mute user_id) s = toggle_user_mute user_id s
  act (sets_internal p) s = set_internal_state p s

  unfoldable pub act_all : List (Action Stream) → Voice Stream → Voice Stream
  act_all [] s = s
  act_all (a ∷ rest) s = act_all rest (act a s)
