-- ===== src/Voice/Tests.antt =====
-- The theorems on the voice store at concrete inputs.
use nodetalk.Prelude.{◌≡◌, true, List, [], ◌∷◌, none, some, String}
use nodetalk.Voice.{Voice, load_page, load_handled_calls}
use nodetalk.Voice.Actions.{Action, act_all, joins, leaves, logs, marks_handled}
use nodetalk.Voice.Handled.{reload_keeps_handled}

abbrev actions : List (Action String)
actions = joins "c" "10:00" ∷ logs "10:01" "hello" ∷ leaves ∷ marks_handled "d" ∷ []

abbrev fresh : Voice String
unfolding load_page
fresh = load_page true none none

-- Two others share their screens, and u is in the spotlight.
abbrev sharing : Voice String
sharing = record fresh {
  remote_streams = ("u", "cam-u") ∷ ("v", "cam-v") ∷ [];
  remote_screen_streams = ("u", "screen-u") ∷ ("v", "screen-v") ∷ [];
  active_presenter_id = some "u";
  spotlight_stream_id = some "u";
  participants = ("c", "u" ∷ "v" ∷ []) ∷ [];
}

reload_keeps_handled_example :
    let s = act_all actions (load_page true (some ("b" ∷ [])) none) in
    load_handled_calls s.can_store s.saved_handled ≡ s.handled_call_channels
reload_keeps_handled_example = reload_keeps_handled actions (some ("b" ∷ [])) none
