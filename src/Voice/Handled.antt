-- ===== src/Voice/Handled.antt =====
-- The calls that were handled, and the copy of that set that outlives a reload of the page.
use nodetalk.Prelude.{◌≡◌, refl, String, true, List, [], ◌∷◌, Option, none, some, arith, or_default}
use nodetalk.Voice.{
  Voice, ScreenShareSettings, load_page, load_handled_calls, set_handled, join_voice, leave_voice,
  set_incoming_call, dismiss_incoming_call, mark_call_handled, reset_handled_call, set_ping,
  update_participants, add_log, clear_logs,
}
use nodetalk.Voice.Streams.{
  set_remote_stream, set_remote_screen_stream, remove_remote_stream, set_track_state,
  set_preferred_camera_id, set_active_presenter_id, set_spotlight_stream_id,
  set_screen_share_settings, set_screen_share_volume, toggle_screen_share_mute, set_user_volume,
  toggle_user_mute,
}
use nodetalk.Voice.Actions.{
  Action, act, act_all, set_internal_state, joins, leaves, sets_incoming, dismisses, marks_handled,
  resets_handled, sets_ping, updates_participants, logs, clears_logs, sets_remote,
  sets_remote_screen, removes_remote, sets_track, sets_camera, sets_presenter, sets_spotlight,
  sets_settings, sets_screen_volume, toggles_screen_mute, sets_volume, toggles_mute, sets_internal,
}

module _ {Stream : Type 0} where
  -- The browser stores, and the saved copy is the set.
  IsSaved : Voice Stream → Type 0
  IsSaved s = (s.can_store ≡ true) × (or_default s.saved_handled [] ≡ s.handled_call_channels)

  act-IsSaved : (a : Action Stream) (s : Voice Stream) → IsSaved s → IsSaved (act a s)
  unfolding IsSaved act set_handled join_voice leave_voice set_incoming_call dismiss_incoming_call
      mark_call_handled reset_handled_call set_ping update_participants add_log clear_logs
      set_remote_stream set_remote_screen_stream remove_remote_stream set_track_state
      set_preferred_camera_id set_active_presenter_id set_spotlight_stream_id
      set_screen_share_settings set_screen_share_volume toggle_screen_share_mute set_user_volume
      toggle_user_mute set_internal_state
  act-IsSaved (joins channel_id time) s (c, e) = (c, ground (arith, c))
  act-IsSaved leaves s (c, e) = (c, ground (arith, c))
  act-IsSaved (sets_incoming call) s v = v
  act-IsSaved dismisses s (c, e) = (ground (arith, c), ground (arith, c, e))
  act-IsSaved (marks_handled channel_id) s (c, e) = (c, ground (arith, c))
  act-IsSaved (resets_handled channel_id) s (c, e) = (ground (arith, c), ground (arith, c, e))
  act-IsSaved (sets_ping ping) s v = v
  act-IsSaved (updates_participants channel_id users) s v = v
  act-IsSaved (logs time message) s v = v
  act-IsSaved clears_logs s v = v
  act-IsSaved (sets_remote user_id stream) s v = v
  act-IsSaved (sets_remote_screen user_id none) s v = v
  act-IsSaved (sets_remote_screen user_id (some stream)) s v = v
  act-IsSaved (removes_remote user_id) s v = v
  act-IsSaved (sets_track user_id kind enabled) s v = v
  act-IsSaved (sets_camera id) s v = v
  act-IsSaved (sets_presenter id) s v = v
  act-IsSaved (sets_spotlight id) s v = v
  act-IsSaved (sets_settings settings) s v = v
  act-IsSaved (sets_screen_volume user_id volume) s v = v
  act-IsSaved (toggles_screen_mute user_id) s v = v
  act-IsSaved (sets_volume user_id volume) s v = v
  act-IsSaved (toggles_mute user_id) s v = v
  act-IsSaved (sets_internal p) s v = v

  act_all-IsSaved :
      (actions : List (Action Stream)) (s : Voice Stream) → IsSaved s → IsSaved (act_all actions s)
  unfolding act_all
  act_all-IsSaved [] s v = v
  act_all-IsSaved (a ∷ actions) s v = act_all-IsSaved actions (act a s) (act-IsSaved a s v)

-- Where the browser stores, a page that is reloaded after any actions whatever still knows exactly the
-- calls that were handled before, those of earlier pages of the tab included.
pub reload_keeps_handled :
    {Stream : Type 0} (actions : List (Action Stream)) (saved : Option (List String))
    (settings : Option ScreenShareSettings)
    → let s = act_all actions (load_page true saved settings) in
      load_handled_calls s.can_store s.saved_handled ≡ s.handled_call_channels
unfolding IsSaved load_page load_handled_calls
reload_keeps_handled actions saved settings =
    let v = act_all-IsSaved actions (load_page true saved settings) (refl, refl) in
    ground (arith, v.0, v.1)
