-- ===== src/Voice/Logs.antt =====
-- The log of a call stays short.
use nodetalk.Prelude.{
  ℕ, zero, suc, ◌-◌, ◌≤◌, ◌≡◌, List, [], ◌∷◌, none, some, arith, length, length-append,
}
use nodetalk.Voice.{
  Voice, drop, last_items, set_handled, join_voice, leave_voice, set_incoming_call,
  dismiss_incoming_call, mark_call_handled, reset_handled_call, set_ping, update_participants,
  add_log, clear_logs,
}
use nodetalk.Voice.Streams.{
  set_remote_stream, set_remote_screen_stream, remove_remote_stream, set_track_state,
  set_preferred_camera_id, set_active_presenter_id, set_spotlight_stream_id,
  set_screen_share_settings, set_screen_share_volume, toggle_screen_share_mute, set_user_volume,
  toggle_user_mute,
}
use nodetalk.Voice.Actions.{
  Action, act, act_all, set_internal_state, joins, leaves, sets_incoming, dismisses, marks_handled,
  resets_handled, sets_ping, updates_participants, logs, clears_logs, sets_remote,
  sets_remote_screen, removes_remote, sets_track, sets_camera, sets_presenter, sets_spotlight,
  sets_settings, sets_screen_volume, toggles_screen_mute, sets_volume, toggles_mute, sets_internal,
}

length-drop {ℓ} : {A : Type ℓ} (n : ℕ) (xs : List A) → length (drop n xs) ≡ length xs - n
unfolding drop
length-drop zero xs = omega arith
length-drop (suc n) [] = omega arith
length-drop (suc n) (x ∷ xs) = omega (arith, length-drop n xs)

length-last_items {ℓ} : {A : Type ℓ} (n : ℕ) (xs : List A) → length (last_items n xs) ≤ n
unfolding last_items
length-last_items n xs = omega (arith, length-drop (length xs - n) xs)

module _ {Stream : Type 0} where
  act-logs :
      (a : Action Stream) (s : Voice Stream) → length s.logs ≤ 50 → length (act a s).logs ≤ 50
  unfolding act set_handled join_voice leave_voice set_incoming_call dismiss_incoming_call
      mark_call_handled reset_handled_call set_ping update_participants add_log clear_logs
      set_remote_stream set_remote_screen_stream remove_remote_stream set_track_state
      set_preferred_camera_id set_active_presenter_id set_spotlight_stream_id
      set_screen_share_settings set_screen_share_volume toggle_screen_share_mute set_user_volume
      toggle_user_mute set_internal_state
  act-logs (joins channel_id time) s h = omega arith
  act-logs leaves s h = h
  act-logs (sets_incoming call) s h = h
  act-logs dismisses s h = ground (arith, h)
  act-logs (marks_handled channel_id) s h = h
  act-logs (resets_handled channel_id) s h = ground (arith, h)
  act-logs (sets_ping ping) s h = h
  act-logs (updates_participants channel_id users) s h = h
  act-logs (logs time message) s h =
      omega (arith, length-append (last_items 49 s.logs) (_ ∷ []), length-last_items 49 s.logs)
  act-logs clears_logs s h = omega arith
  act-logs (sets_remote user_id stream) s h = h
  act-logs (sets_remote_screen user_id none) s h = h
  act-logs (sets_remote_screen user_id (some stream)) s h = h
  act-logs (removes_remote user_id) s h = h
  act-logs (sets_track user_id kind enabled) s h = h
  act-logs (sets_camera id) s h = h
  act-logs (sets_presenter id) s h = h
  act-logs (sets_spotlight id) s h = h
  act-logs (sets_settings settings) s h = h
  act-logs (sets_screen_volume user_id volume) s h = h
  act-logs (toggles_screen_mute user_id) s h = h
  act-logs (sets_volume user_id volume) s h = h
  act-logs (toggles_mute user_id) s h = h
  act-logs (sets_internal p) s h = h

  -- From a log of at most 50 lines, no actions make it longer than 50 lines.
  pub log_bound :
      (actions : List (Action Stream)) (s : Voice Stream)
      → length s.logs ≤ 50
      → length (act_all actions s).logs ≤ 50
  unfolding act_all
  log_bound [] s h = h
  log_bound (a ∷ actions) s h = log_bound actions (act a s) (act-logs a s h)
