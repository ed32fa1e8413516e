-- ===== src/Voice.antt =====
-- client-web/src/store/voiceStore.ts: the state of a call as the user interface shows it. A
-- `MediaStream` of the browser is a value of the type `Stream`; volumes count hundredths, so that 100
-- is a factor of 1; the time of day in a log line is an argument. The copies in `sessionStorage` and
-- `localStorage` are fields, which do not change when the browser refuses to store.
pub mod Streams
pub mod Actions
pub mod Handled
pub mod Logs
pub mod Leave
pub mod Peers
mod Tests
use Prim.Native.String
use nodetalk.Prelude.{
  ℕ, zero, suc, ◌-◌, String, Bool, true, false, not, List, [], ◌∷◌, ◌++◌, Option, none, some, ◌==◌,
  if◌then◌else◌, length, or_default, is_text,
}
use nodetalk.Prelude.Dict
use nodetalk.Prelude.Dict.{Dict}
use nodetalk.Prelude.IdSet

pub data CallStatus : Type 0 where
  idle connecting connected reconnecting failed : CallStatus

pub record TrackState : Type 0 where
  pub audio : Bool
  pub video : Bool
  pub screen : Bool

pub record IncomingCall : Type 0 where
  pub channel_id : String
  pub caller_id : String
  pub caller_username : String
  pub caller_avatar_id : Option String
  pub timestamp : ℕ

pub data Resolution : Type 0 where
  source_size p720 p1080 p1440 : Resolution

pub data FrameRate : Type 0 where
  fps15 fps30 fps60 : FrameRate

pub data AspectRatio : Type 0 where
  source_ratio wide standard : AspectRatio

pub data ContentHint : Type 0 where
  detail motion : ContentHint

pub record ScreenShareSettings : Type 0 where
  pub resolution : Resolution
  pub frame_rate : FrameRate
  pub aspect_ratio : AspectRatio
  pub content_hint : ContentHint
  pub include_audio : Bool

abbrev pub default_screen_share_settings : ScreenShareSettings
default_screen_share_settings = record {
  resolution = p1080;
  frame_rate = fps30;
  aspect_ratio = source_ratio;
  content_hint = detail;
  include_audio = false;
}

pub record Voice (Stream : Type 0) : Type 0 where
  pub active_channel_id : Option String
  pub is_active : Bool
  pub call_status : CallStatus
  pub is_muted : Bool
  pub is_deafened : Bool
  pub is_video_enabled : Bool
  pub is_screen_sharing : Bool
  pub local_stream : Option Stream
  pub local_screen_stream : Option Stream
  pub remote_streams : Dict Stream
  pub remote_screen_streams : Dict Stream
  pub participant_track_states : Dict TrackState
  pub preferred_camera_id : String
  pub active_presenter_id : Option String
  pub spotlight_stream_id : Option String
  pub screen_share_settings : ScreenShareSettings
  pub screen_share_volumes : Dict ℕ
  pub screen_share_mutes : Dict Bool
  pub speaking_users : List String
  pub participants : Dict (List String)
  pub logs : List String
  pub user_volumes : Dict ℕ
  pub user_mutes : List String
  pub incoming_call : Option IncomingCall
  pub handled_call_channels : List String
  pub ping : Option ℕ
  -- whether the browser stores, `nodetalk_handled_calls` and `nodetalk_screenshare_settings`
  pub can_store : Bool
  pub saved_handled : Option (List String)
  pub saved_settings : Option ScreenShareSettings

-- The saved list, where it can be read.
unfoldable pub load_handled_calls : Bool → Option (List String) → List String
load_handled_calls can_store saved = if can_store then or_default saved [] else []

-- The store of a page that loads, in a tab with this storage.
unfoldable pub load_page :
    {Stream : Type 0} → Bool → Option (List String) → Option ScreenShareSettings → Voice Stream
unfolding load_handled_calls
load_page can_store saved settings = record {
  active_channel_id = none;
  is_active = false;
  call_status = idle;
  is_muted = false;
  is_deafened = false;
  is_video_enabled = false;
  is_screen_sharing = false;
  local_stream = none;
  local_screen_stream = none;
  remote_streams = [];
  remote_screen_streams = [];
  participant_track_states = [];
  preferred_camera_id = "";
  active_presenter_id = none;
  spotlight_stream_id = none;
  screen_share_settings = default_screen_share_settings;
  screen_share_volumes = [];
  screen_share_mutes = [];
  speaking_users = [];
  participants = [];
  logs = [];
  user_volumes = [];
  user_mutes = [];
  incoming_call = none;
  handled_call_channels = load_handled_calls can_store saved;
  ping = none;
  can_store = can_store;
  saved_handled = saved;
  saved_settings = settings;
}

-- `[${new Date().toLocaleTimeString()}] ${message}`
abbrev pub log_line : String → String → String
log_line time message = String.◌++◌ "[" (String.◌++◌ time (String.◌++◌ "] " message))

-- `o || null`
abbrev pub or_null : Option String → Option String
or_null none = none
or_null (some s) = if s == "" then none else some s

unfoldable pub drop {ℓ} : {A : Type ℓ} → ℕ → List A → List A
drop zero xs = xs
drop (suc n) [] = []
drop (suc n) (x ∷ xs) = drop n xs

-- `xs.slice(-n)`
unfoldable pub last_items {ℓ} : {A : Type ℓ} → ℕ → List A → List A
unfolding drop
last_items n xs = drop (length xs - n) xs

abbrev pub rings_in : String → Option IncomingCall → Bool
rings_in id none = false
rings_in id (some call) = call.channel_id == id

module _ {Stream : Type 0} where
  -- `handledCallChannels` and its saved copy together
  unfoldable pub set_handled : List String → Voice Stream → Voice Stream
  set_handled handled s = record s {
    handled_call_channels = handled;
    saved_handled = if s.can_store then some handled else s.saved_handled;
  }

  unfoldable pub join_voice : String → String → Voice Stream → Voice Stream
  unfolding set_handled
  join_voice channel_id time s =
      record (set_handled (IdSet.add channel_id s.handled_call_channels) s) {
        active_channel_id = some channel_id;
        is_active = true;
        call_status = connecting;
        incoming_call = none;
        ping = none;
        logs = log_line time (String.◌++◌ "Joining channel " (String.◌++◌ channel_id "...")) ∷ [];
      }

  unfoldable pub leave_voice : Voice Stream → Voice Stream
  unfolding set_handled
  leave_voice s =
      record (set_handled
        (elim (or_null s.active_channel_id) [
          | none ↦ s.handled_call_channels
          | some id ↦ IdSet.add id s.handled_call_channels
        ])
        s) {
          active_channel_id = none;
          is_active = false;
          call_status = idle;
          is_video_enabled = false;
          is_screen_sharing = false;
          local_stream = none;
          local_screen_stream = none;
          remote_streams = [];
          remote_screen_streams = [];
          participant_track_states = [];
          active_presenter_id = none;
          spotlight_stream_id = none;
          speaking_users = [];
          participants = elim (or_null s.active_channel_id) [
            | none ↦ s.participants
            | some id ↦ Dict.erase id s.participants
          ];
          incoming_call = none;
          ping = none;
        }

  unfoldable pub set_incoming_call : Option IncomingCall → Voice Stream → Voice Stream
  set_incoming_call call s = record s { incoming_call = call }

  unfoldable pub dismiss_incoming_call : Voice Stream → Voice Stream
  unfolding set_handled
  dismiss_incoming_call s = elim s.incoming_call [
    | none ↦ record s { incoming_call = none }
    | some call ↦ record (set_handled (IdSet.add call.channel_id s.handled_call_channels) s) {
      incoming_call = none;
    }
  ]

  unfoldable pub mark_call_handled : String → Voice Stream → Voice Stream
  unfolding set_handled
  mark_call_handled channel_id s =
      record (set_handled (IdSet.add channel_id s.handled_call_channels) s) {
        incoming_call = if rings_in channel_id s.incoming_call then none else s.incoming_call;
      }

  unfoldable pub reset_handled_call : String → Voice Stream → Voice Stream
  unfolding set_handled
  reset_handled_call channel_id s =
      if not (IdSet.has channel_id s.handled_call_channels)
      then s
      else set_handled (IdSet.delete channel_id s.handled_call_channels) s

  unfoldable pub set_ping : Option ℕ → Voice Stream → Voice Stream
  set_ping ping s = record s { ping = ping }

  unfoldable pub update_participants : String → List String → Voice Stream → Voice Stream
  update_participants channel_id users s = record s {
    participants = Dict.insert channel_id users s.participants;
  }

  unfoldable pub add_log : String → String → Voice Stream → Voice Stream
  unfolding last_items
  add_log time message s = record s { logs = last_items 49 s.logs ++ log_line time message ∷ [] }

  unfoldable pub clear_logs : Voice Stream → Voice Stream
  clear_logs s = record s { logs = [] }
