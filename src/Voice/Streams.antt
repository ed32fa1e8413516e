-- ===== src/Voice/Streams.antt =====
-- client-web/src/store/voiceStore.ts: the streams and tracks of the other participants, who presents,
-- whose stream is in the spotlight, and the volumes.
use nodetalk.Prelude.{
  ℕ, String, Bool, true, false, not, [], ◌∷◌, Option, none, some, if◌then◌else◌, or_default,
  is_text,
}
use nodetalk.Prelude.Dict
use nodetalk.Prelude.Dict.{Dict}
use nodetalk.Prelude.IdSet
use nodetalk.Voice.{
  Voice, TrackState, ScreenShareSettings, Resolution, FrameRate, AspectRatio, ContentHint, or_null,
}

pub data TrackKind : Type 0 where
  audio video screen : TrackKind

-- `Object.keys(streams)[0]`
unfoldable pub first_key {ℓ} : {A : Type ℓ} → Dict A → Option String
first_key [] = none
first_key ((key, _) ∷ _) = some key

-- `{ ...current, [kind]: enabled }`
unfoldable pub with_track : TrackKind → Bool → TrackState → TrackState
with_track audio enabled t = record t { audio = enabled }
with_track video enabled t = record t { video = enabled }
with_track screen enabled t = record t { screen = enabled }

abbrev default_tracks : TrackState
default_tracks = record { audio = true; video = false; screen = false }

pub record SettingsChange : Type 0 where
  pub resolution : Option Resolution
  pub frame_rate : Option FrameRate
  pub aspect_ratio : Option AspectRatio
  pub content_hint : Option ContentHint
  pub include_audio : Option Bool

-- `{ ...state.screenShareSettings, ...settings }`
unfoldable pub changed_settings : SettingsChange → ScreenShareSettings → ScreenShareSettings
changed_settings c s = record {
  resolution = or_default c.resolution s.resolution;
  frame_rate = or_default c.frame_rate s.frame_rate;
  aspect_ratio = or_default c.aspect_ratio s.aspect_ratio;
  content_hint = or_default c.content_hint s.content_hint;
  include_audio = or_default c.include_audio s.include_audio;
}

module _ {Stream : Type 0} where
  unfoldable pub set_remote_stream : String → Stream → Voice Stream → Voice Stream
  set_remote_stream user_id stream s = record s {
    remote_streams = Dict.insert user_id stream s.remote_streams;
  }

  -- No longer the presenter, and not in the spotlight, where another screen takes its place.
  unfoldable pub presenter_without : String → Voice Stream → Option String
  presenter_without user_id s =
      if is_text s.active_presenter_id user_id then none else s.active_presenter_id

  unfoldable pub spotlight_without : String → Dict Stream → Voice Stream → Option String
  unfolding first_key
  spotlight_without user_id screens s =
      if is_text s.spotlight_stream_id user_id
      then if s.is_screen_sharing then some "local" else or_null (first_key screens)
      else s.spotlight_stream_id

  unfoldable pub set_remote_screen_stream : String → Option Stream → Voice Stream → Voice Stream
  unfolding presenter_without spotlight_without
  set_remote_screen_stream user_id none s =
      let next = Dict.erase user_id s.remote_screen_streams in
      record s {
        remote_screen_streams = next;
        active_presenter_id = presenter_without user_id s;
        spotlight_stream_id = spotlight_without user_id next s;
      }
  set_remote_screen_stream user_id (some stream) s = record s {
    remote_screen_streams = Dict.insert user_id stream s.remote_screen_streams;
    active_presenter_id = some user_id;
    spotlight_stream_id = some user_id;
  }

  unfoldable pub remove_remote_stream : String → Voice Stream → Voice Stream
  unfolding presenter_without spotlight_without
  remove_remote_stream user_id s =
      let next_screens = Dict.erase user_id s.remote_screen_streams in
      record s {
        remote_streams = Dict.erase user_id s.remote_streams;
        remote_screen_streams = next_screens;
        participant_track_states = Dict.erase user_id s.participant_track_states;
        active_presenter_id = presenter_without user_id s;
        spotlight_stream_id = spotlight_without user_id next_screens s;
      }

  unfoldable pub next_presenter : String → TrackKind → Bool → Voice Stream → Option String
  unfolding presenter_without
  next_presenter user_id screen true s = some user_id
  next_presenter user_id screen false s = presenter_without user_id s
  next_presenter user_id _ enabled s = s.active_presenter_id

  unfoldable pub next_spotlight : String → TrackKind → Bool → Voice Stream → Option String
  next_spotlight user_id screen true s = some user_id
  next_spotlight user_id screen false s =
      if is_text s.spotlight_stream_id user_id
      then if s.is_screen_sharing then some "local" else none
      else s.spotlight_stream_id
  next_spotlight user_id _ enabled s = s.spotlight_stream_id

  unfoldable pub set_track_state : String → TrackKind → Bool → Voice Stream → Voice Stream
  unfolding with_track next_presenter next_spotlight
  set_track_state user_id kind enabled s = record s {
    participant_track_states =
        Dict.insert user_id
          (with_track kind enabled
            (or_default (Dict.lookup user_id s.participant_track_states) default_tracks))
          s.participant_track_states;
    active_presenter_id = next_presenter user_id kind enabled s;
    spotlight_stream_id = next_spotlight user_id kind enabled s;
  }

  unfoldable pub set_preferred_camera_id : String → Voice Stream → Voice Stream
  set_preferred_camera_id id s = record s { preferred_camera_id = id }

  unfoldable pub set_active_presenter_id : Option String → Voice Stream → Voice Stream
  set_active_presenter_id id s = record s { active_presenter_id = id }

  unfoldable pub set_spotlight_stream_id : Option String → Voice Stream → Voice Stream
  set_spotlight_stream_id id s = record s { spotlight_stream_id = id }

  unfoldable pub set_screen_share_settings : SettingsChange → Voice Stream → Voice Stream
  unfolding changed_settings
  set_screen_share_settings settings s =
      let updated = changed_settings settings s.screen_share_settings in
      record s {
        screen_share_settings = updated;
        saved_settings = if s.can_store then some updated else s.saved_settings;
      }

  unfoldable pub set_screen_share_volume : String → ℕ → Voice Stream → Voice Stream
  set_screen_share_volume user_id volume s = record s {
    screen_share_volumes = Dict.insert user_id volume s.screen_share_volumes;
  }

  unfoldable pub toggle_screen_share_mute : String → Voice Stream → Voice Stream
  toggle_screen_share_mute user_id s = record s {
    screen_share_mutes =
        Dict.insert user_id (not (or_default (Dict.lookup user_id s.screen_share_mutes) false))
          s.screen_share_mutes;
  }

  unfoldable pub set_user_volume : String → ℕ → Voice Stream → Voice Stream
  set_user_volume user_id volume s = record s {
    user_volumes = Dict.insert user_id volume s.user_volumes;
  }

  unfoldable pub toggle_user_mute : String → Voice Stream → Voice Stream
  toggle_user_mute user_id s = record s {
    user_mutes =
        if IdSet.has user_id s.user_mutes
        then IdSet.delete user_id s.user_mutes
        else IdSet.add user_id s.user_mutes;
  }
