-- ===== src/Session.antt =====
-- client-web/src/store/auth.slice.ts: signing in and out, over the list of channels and the connection
-- of ws.ts. A request is cut at its `await`: the part after it takes the server's answer. Relationships
-- are values of a type that the server defines.
pub mod SignOut
use nodetalk.Prelude.{
  String, Bool, true, false, not, ◌&&◌, List, [], ◌∷◌, ◌++◌, Option, none, some, ◌==◌,
  if◌then◌else◌, or_default,
}
use nodetalk.Channels.{Store, given_or, refresh_start, reset_channels, update_member_avatar}
use nodetalk.Wire.{Client, Place, ws_connect, ws_disconnect}

pub record AuthUser : Type 0 where
  pub id : String
  pub username : String
  pub domain : String
  pub status : String
  pub status_preference : String
  pub avatar_id : Option String
  pub avatar_ids : Option (List String)
  pub banner_color : Option String
  pub custom_msg : Option String
  pub allow_channel_adds : Option String
  pub dm_permission : Option String
  pub friend_request_permission : Option String
  pub token : Option String

pub record Account (Bytes J R : Type 0) : Type 0 where
  pub user : Option AuthUser
  pub is_auth_loading : Bool
  pub relationships : List R
  pub incoming_requests : List R
  pub channels : Store
  pub client : Client Bytes J
  -- the browser or desktop shell, with `nodetalk_token` of its storage
  pub place : Place
  -- the avatars of the calls of `evictStaleAvatars`, in the answer and saved, and of `prewarmAvatars`
  pub evicted : List (List String × List String)
  pub prewarmed : List (List String)

-- `...(user.avatar_ids || []), ...(user.avatar_id ? [user.avatar_id] : [])`
avatars : AuthUser → List String
avatars u =
    or_default u.avatar_ids []
    ++ elim u.avatar_id [ none ↦ [] | some id ↦ if id == "" then [] else id ∷ [] ]

-- `{ ...old, ...fresh }`: what the answer does not have stays.
merged : AuthUser → AuthUser → AuthUser
merged old fresh = record fresh {
  avatar_id = given_or fresh.avatar_id old.avatar_id;
  avatar_ids = elim fresh.avatar_ids [ none ↦ old.avatar_ids | some ids ↦ some ids ];
  banner_color = given_or fresh.banner_color old.banner_color;
  custom_msg = given_or fresh.custom_msg old.custom_msg;
  allow_channel_adds = given_or fresh.allow_channel_adds old.allow_channel_adds;
  dm_permission = given_or fresh.dm_permission old.dm_permission;
  friend_request_permission =
      given_or fresh.friend_request_permission old.friend_request_permission;
  token = given_or fresh.token old.token;
}

module _ {Bytes J R : Type 0} where
  persist_desktop_token : Option String → Account Bytes J R → Account Bytes J R
  persist_desktop_token none s = s
  persist_desktop_token (some token) s =
      if not s.place.is_wails
      then s
      else if token == ""
      then s
      else record s { place = record (s.place) { stored_token = some token } }

  clear_desktop_token : Account Bytes J R → Account Bytes J R
  clear_desktop_token s = record s {
    place = record (s.place) {
      stored_token = if s.place.is_wails then none else s.place.stored_token;
    };
  }

  -- `connectWS`, and the requests that follow it wherever it is called.
  start_session : Option String → Account Bytes J R → Account Bytes J R
  start_session token s = record s {
    client = ws_connect s.place token s.client;
    channels = refresh_start s.channels;
  }

  forget_user : Account Bytes J R → Account Bytes J R
  forget_user s = record s { user = none; relationships = []; incoming_requests = [] }

  close_connection : Account Bytes J R → Account Bytes J R
  close_connection s = record s { client = ws_disconnect s.client }

  -- Without a saved user nothing is asked.
  pub init_auth_start : Account Bytes J R → Account Bytes J R × Option AuthUser
  init_auth_start s = elim s.user as (λ _. Account Bytes J R × Option AuthUser) [
    | none ↦ (record s { is_auth_loading = false }, none)
    | some saved ↦ (s, some saved)
  ]

  pub init_auth_answered : AuthUser → AuthUser → Account Bytes J R → Account Bytes J R
  unfolding avatars start_session
  init_auth_answered saved fresh s =
      let t = record s {
        user = some fresh;
        evicted = s.evicted ++ (avatars fresh, avatars saved) ∷ [];
        prewarmed = s.prewarmed ++ avatars fresh ∷ [];
      } in
      record (start_session fresh.token t) { is_auth_loading = false }

  -- With whether the status is 401.
  pub init_auth_failed : AuthUser → Bool → Account Bytes J R → Account Bytes J R
  unfolding forget_user close_connection start_session
  init_auth_failed saved true s = record (close_connection (forget_user s)) {
    is_auth_loading = false;
  }
  init_auth_failed saved false s = record (start_session saved.token s) { is_auth_loading = false }

  -- After the server's answer; `register` goes on with it.
  pub logged_in : AuthUser → Account Bytes J R → Account Bytes J R
  unfolding persist_desktop_token start_session
  logged_in user s =
      start_session user.token (persist_desktop_token user.token (record s { user = some user }))

  -- Whether or not the request succeeds.
  pub logged_out : Account Bytes J R → Account Bytes J R
  unfolding close_connection clear_desktop_token forget_user
  logged_out s =
      let t = close_connection s in
      forget_user (clear_desktop_token (record t { channels = reset_channels t.channels }))

  pub fetched_relationships : Option (List R) → Account Bytes J R → Account Bytes J R
  fetched_relationships none s = s
  fetched_relationships (some rels) s = record s { relationships = rels }

  pub fetched_incoming_requests : Option (List R) → Account Bytes J R → Account Bytes J R
  fetched_incoming_requests none s = s
  fetched_incoming_requests (some requests) s = record s { incoming_requests = requests }

  -- The keys `avatar_id` and `avatar_ids` of the request, where it has them.
  pub updated_user :
      Option (Option String)
      → Option (Option (List String))
      → AuthUser
      → Account Bytes J R
      → Account Bytes J R
  unfolding merged
  updated_user avatar_id avatar_ids fresh s =
      let given = elim s.user as (λ _. AuthUser) [
        | none ↦ fresh
        | some old ↦
            let m = merged old fresh in
            record m {
              avatar_id = elim avatar_id [ none ↦ m.avatar_id | some id ↦ some (or_default id "") ];
              avatar_ids = elim avatar_ids [
                | none ↦ m.avatar_ids
                | some ids ↦ some (or_default ids [])
              ];
            }
      ] in
      let channels = elim avatar_id as (λ _. Store) [
        | none ↦ s.channels
        | some id ↦
            if given.id == ""
            then s.channels
            else update_member_avatar given.id (or_default id "") s.channels
      ] in
      record s { user = some given; channels = channels }

  pub update_status : String → Account Bytes J R → Account Bytes J R
  update_status status s = elim s.user as (λ _. Account Bytes J R) [
    | none ↦ s
    | some user ↦ record s { user = some (record user { status = status }) }
  ]

  -- After the server has deleted the account.
  pub deleted_account : Account Bytes J R → Account Bytes J R
  unfolding close_connection forget_user
  deleted_account s =
      let t = close_connection s in forget_user (record t { channels = reset_channels t.channels })
