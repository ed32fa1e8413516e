-- ===== src/Whisper/Start/Answer.antt =====
-- client-web/src/store/whisperStore.ts: the answer of the invited peer, as the inviter handles it. The
-- handler of an acceptance is cut at its `await`s.
use Prim.Native.String
use nodetalk.Prelude.{
  ℕ, String, true, false, Option, none, some, if◌then◌else◌, or_text?, or_default,
}
use nodetalk.Prelude.Dict.{erase, lookup}
use nodetalk.Whisper.Platform.{Platform}
use nodetalk.Whisper.Crypto.{Secrets, ◌>>=◌}
use nodetalk.Whisper.Db.{ExpiryMode, persistent, Engine, save_session}
use nodetalk.Whisper.State.{State, Session, active, closed, open_session}
use nodetalk.Whisper.Start.{is_stored, derive_from, stored_session, handshake_failed}

pub record AcceptRaw (P : Platform) : Type 0 where
  pub session_id : String
  pub target_id : String
  pub target_username : Option String
  pub pub_key : P.Base64
  pub expiry_mode : Option ExpiryMode

module _ {P : Platform} {E : Engine P} where
  -- ── whisper_accept from the server ──

  -- The guards, and the pending key taken out: `none` if the handler returns here.
  unfoldable pub on_accept_start :
      AcceptRaw P → State E → Option (String × Session P × P.PrivateKey × State E)
  on_accept_start raw s = do
    me ← s.user
    session ← open_session raw.session_id s
    key ← lookup raw.session_id s.pending_private_keys
    some (
      me,
      session,
      key,
      record s { pending_private_keys = erase raw.session_id s.pending_private_keys },
    )

  -- The session as the handler stores it; a missing mode counts as persistent.
  unfoldable pub on_accept_save : AcceptRaw P → Session P → Secrets P → ℕ → State E → State E
  on_accept_save raw session r now s =
      let mode = or_default raw.expiry_mode persistent in
      if is_stored mode
      then record s {
        db =
            save_session E
              (stored_session raw.session_id raw.target_id
                (or_text? raw.target_username session.peer_username) mode r now)
              s.db;
      }
      else s

  unfoldable pub on_accept_finish : AcceptRaw P → Session P → Secrets P → State E → State E
  on_accept_finish raw session r s = record s {
    is_connecting = false;
    is_whisper_mode_active = true;
    whisper_peer_id = some raw.target_id;
    active_session = some (record session {
      session_key = some r.session_key;
      safety_number = r.safety_number;
      fingerprint_hex = r.fingerprint_hex;
      status = active;
      status_message = none;
    });
  }

  -- The whole handler, nothing coming between.
  unfoldable pub on_whisper_accept : AcceptRaw P → ℕ → String → State E → State E
  unfolding on_accept_start on_accept_save on_accept_finish derive_from
  on_whisper_accept raw now err s = elim (on_accept_start raw s) [
    | none ↦ s
    | some (me, session, key, s1) ↦
        elim (derive_from P key raw.pub_key raw.session_id me raw.target_id) [
          | none ↦
              handshake_failed (String.◌++◌ "Cryptographic handshake derivation failed: " err) s1
          | some r ↦ on_accept_finish raw session r (on_accept_save raw session r now s1)
        ]
  ]

  -- ── whisper_reject from the server ──

  unfoldable pub on_whisper_reject : String → State E → State E
  on_whisper_reject id s =
      let s1 = record s { pending_private_keys = erase id s.pending_private_keys } in
      elim (open_session id s1) [
        | none ↦ s1
        | some session ↦ record s1 {
          is_connecting = false;
          active_session = some (record session {
            status = closed;
            status_message = some "Session was declined by peer.";
          });
        }
      ]
