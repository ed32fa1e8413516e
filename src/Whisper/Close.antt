-- ===== src/Whisper/Close.antt =====
-- client-web/src/store/whisperStore.ts: how a session ends, by the user, by the peer, by an error of
-- the server; the mark of a verified peer; and the sweep of expired messages.
pub mod Cleanup
use nodetalk.Prelude.{
  ℕ, String, Bool, true, false, not, List, [], ◌∷◌, ◌++◌, Option, none, some, ◌==◌, if◌then◌else◌,
  or_text?, filter, any, is_text,
}
use nodetalk.Prelude.Dict.{erase}
use nodetalk.Whisper.Platform.{Platform}
use nodetalk.Whisper.Db.{
  ExpiryMode, Engine, is_expired, delete_session, set_session_verified, purge_expired_messages,
}
use nodetalk.Whisper.State.{
  State, Session, MessageItem, Frame, whisper_close, closed, burned, send_frame, open_session,
  urls_of,
}
use nodetalk.Whisper.Start.{is_stored}

abbrev pub gone_by : ℕ → MessageItem → Bool
gone_by now m = is_expired now m.expires_at

module _ {P : Platform} {E : Engine P} where
  abbrev forget_key : String → State E → State E
  forget_key id s = record s { pending_private_keys = erase id s.pending_private_keys }

  abbrev revoke_all : Session P → State E → State E
  revoke_all session s = record s { revoked = s.revoked ++ urls_of session.messages }

  -- ── closeSession ──

  close_open : Session P → State E → State E
  close_open session s =
      let s1 =
        send_frame (whisper_close session.session_id "closed") (forget_key session.session_id s) in
      if is_stored session.expiry_mode
      then record s1 {
        is_whisper_mode_active = false;
        active_session =
            some (record session { status = closed; status_message = some "Session closed." });
      }
      else record (revoke_all session s1) { active_session = none; is_whisper_mode_active = false }

  pub close_session : State E → State E
  unfolding close_open
  close_session s = elim s.active_session [
    | none ↦ record s { is_whisper_mode_active = false }
    | some session ↦ close_open session s
  ]

  -- ── burnSession ──

  -- Up to the end of `deleteSession`.
  pub burn_start : Session P → State E → State E
  burn_start session s =
      let s1 =
        send_frame (whisper_close session.session_id "burned") (forget_key session.session_id s) in
      let s2 = revoke_all session s1 in record s2 { db = delete_session E session.session_id s2.db }

  pub burn_finish : State E → State E
  burn_finish s = record s {
    active_session = none;
    is_whisper_mode_active = false;
    is_safety_number_modal_open = false;
  }

  -- The whole action, nothing coming between.
  pub burn_session : State E → State E
  unfolding burn_start burn_finish
  burn_session s = elim s.active_session [
    | none ↦ record s { is_whisper_mode_active = false }
    | some session ↦ burn_finish (burn_start session s)
  ]

  -- ── whisper_close from the server ──

  -- Up to the end of `deleteSession`.
  peer_burned_start : Session P → State E → State E
  peer_burned_start session s =
      let s1 = revoke_all session s in record s1 { db = delete_session E session.session_id s1.db }

  peer_burned_finish : Session P → State E → State E
  peer_burned_finish session s = record s {
    active_session = some (record session {
      status = burned;
      status_message = some "This chat was burned and all data destroyed.";
      messages = [];
    });
  }

  peer_closed : Option String → Session P → State E → State E
  peer_closed reason session s = record s {
    active_session = some (record session {
      status = closed;
      status_message = some (
          if is_text reason "peer_disconnected"
          then "Peer disconnected."
          else "Session was closed by peer.");
    });
  }

  pub on_whisper_close : String → Option String → State E → State E
  unfolding peer_burned_start peer_burned_finish peer_closed
  on_whisper_close id reason s =
      let s1 = forget_key id s in
      elim (open_session id s1) [
        | none ↦ s1
        | some session ↦
            if is_text reason "burned"
            then peer_burned_finish session (peer_burned_start session s1)
            else peer_closed reason session s1
      ]

  -- ── whisper_error from the server ──

  abbrev with_error : Option String → State E → State E
  with_error err s = record s {
    is_connecting = false;
    error_message = some (or_text? err "Whisper connection error");
  }

  -- `id` is the empty text where the frame names no session.
  pub on_whisper_error : String → Option String → State E → State E
  on_whisper_error id err s =
      let s1 = with_error err (forget_key id s) in
      elim (if id == "" then none else open_session id s1) [
        | none ↦ s1
        | some session ↦ record s1 {
          active_session = some (record session {
            status = closed;
            status_message = some (or_text? err "Session closed due to an error.");
          });
        }
      ]

  -- ── toggleVerified ──

  -- Up to the end of `setSessionVerified`.
  unfoldable pub toggle_start : Session P → State E → State E
  toggle_start session s =
      if is_stored session.expiry_mode
      then record s { db = set_session_verified E session.session_id (not session.verified) s.db }
      else s

  unfoldable pub toggle_finish : Session P → State E → State E
  toggle_finish session s = record s {
    active_session = some (record session { verified = not session.verified });
  }

  -- The whole action, nothing coming between.
  unfoldable pub toggle_verified : State E → State E
  unfolding toggle_start toggle_finish
  toggle_verified s = elim s.active_session [
    | none ↦ s
    | some session ↦ toggle_finish session (toggle_start session s)
  ]

  -- ── The sweep, every three seconds ──

  sweep_purge : ℕ → State E → State E
  sweep_purge now s = record s { db = (purge_expired_messages E now s.db).0 }

  -- After the purge, with the session that was open before it.
  sweep_session : ℕ → Session P → State E → State E
  sweep_session now session s =
      if any (gone_by now) session.messages
      then record s {
        revoked = s.revoked ++ urls_of (filter (gone_by now) session.messages);
        active_session =
            some (record session { messages = filter (λ m. not (gone_by now m)) session.messages });
      }
      else s

  -- The whole sweep. While it awaits the purge, `before` is what happens to the stores until the rows
  -- are purged, and `after` what happens until the sweep goes on.
  pub sweep : ℕ → (State E → State E) → (State E → State E) → State E → State E
  unfolding sweep_purge sweep_session
  sweep now before after s =
      let t = after (sweep_purge now (before s)) in
      elim s.active_session [ none ↦ t | some session ↦ sweep_session now session t ]
