-- ===== src/Whisper/Start.antt =====
-- client-web/src/store/whisperStore.ts: how a session begins. An action with an `await` between two
-- of its effects is cut there into functions, so that other events can come between. The session id,
-- the key pair and the time are arguments; `err` is the message of a caught exception.
pub mod Answer
pub mod Abandoned
pub mod Handshake
use Prim.Native.String
use nodetalk.Prelude.{
  ℕ, String, Bool, true, false, ◌&&◌, List, [], ◌∷◌, Option, none, some, ◌==◌, if◌then◌else◌,
  or_text?, or_default, find, length, nat_beq,
}
use nodetalk.Prelude.IdSet.{has}
use nodetalk.Prelude.Dict.{insert, erase, lookup}
use nodetalk.Api.{Channel}
use nodetalk.Channels.{set_active_channel}
use nodetalk.Whisper.Platform.{Platform}
use nodetalk.Whisper.Crypto.{Secrets, derive_whisper_secrets, ◌>>=◌}
use nodetalk.Whisper.Db.{ExpiryMode, persistent, session_only, Engine, StoredSession, save_session}
use nodetalk.Whisper.State.{
  State, Session, Invite, Frame, whisper_init, whisper_accept, whisper_reject, read_receipt, active,
  closed, send_frame, open_session,
}

-- `mode !== 'session_only'`
abbrev pub is_stored : ExpiryMode → Bool
is_stored ExpiryMode.session_only = false
is_stored _ = true

-- The payloads of the frames that the server sends, where they take part in starting a session.
pub record InitRaw (P : Platform) : Type 0 where
  pub session_id : String
  pub initiator_id : String
  pub initiator_username : Option String
  pub pub_key : P.Base64
  pub expiry_mode : Option ExpiryMode

-- The remote key decoded and the secrets derived: `none` is an exception.
pub derive_from :
    (P : Platform) → P.PrivateKey → P.Base64 → String → String → String → Option (Secrets P)
derive_from P key encoded session_id me peer = do
  bytes ← P.atob encoded
  remote ← P.import_key bytes
  derive_whisper_secrets P key remote session_id me peer

abbrev stored_session :
    {P : Platform} → String → String → String → ExpiryMode → Secrets P → ℕ → StoredSession P
stored_session id peer name mode r now = record {
  session_id = id;
  peer_id = peer;
  peer_username = name;
  session_key = r.session_key;
  expiry_mode = mode;
  safety_number = r.safety_number;
  fingerprint_hex = r.fingerprint_hex;
  verified = false;
  created_at = now;
  last_activity = now;
}

-- `members?.includes(peer) && members?.length === 2`
abbrev is_dm_with : String → Channel → Bool
is_dm_with peer c = has peer c.members && nat_beq (length c.members) 2

module _ {P : Platform} {E : Engine P} where
  -- ── initiateWhisper ──

  pub initiate_start : State E → State E
  initiate_start s = elim s.user [
    | none ↦ s
    | some _ ↦ record s { is_connecting = true; error_message = none }
  ]

  pub initiate_keypair : String → P.PrivateKey → State E → State E
  initiate_keypair id key s = record s {
    pending_private_keys = insert id key s.pending_private_keys;
  }

  pub initiate_send : String → P.PrivateKey → String → String → ExpiryMode → ℕ → State E → State E
  initiate_send id key peer name mode now s =
      let s1 = send_frame (whisper_init id peer (P.btoa (P.export_key (P.public_of key))) mode) s in
      record s1 {
        is_start_modal_open = false;
        start_modal_peer = none;
        is_whisper_mode_active = true;
        whisper_peer_id = some peer;
        active_session = some (record {
          session_id = id;
          peer_id = peer;
          peer_username = name;
          session_key = none;
          expiry_mode = mode;
          safety_number = [];
          fingerprint_hex = [];
          verified = false;
          initiated_by_me = true;
          messages = [];
          status = active;
          status_message = some (String.◌++◌ "Waiting for " (String.◌++◌ name " to accept..."));
          created_at = now;
        });
      }

  -- `catch` of both `initiateWhisper` and `acceptInvite`, which differ in the text that replaces an
  -- empty message.
  pub handshake_failed : String → State E → State E
  handshake_failed err s = record s { is_connecting = false; error_message = some err }

  -- The whole action for a signed-in user, nothing coming between.
  pub initiate_whisper :
      String → P.PrivateKey → String → String → ExpiryMode → ℕ → State E → State E
  unfolding initiate_start initiate_keypair initiate_send
  initiate_whisper id key peer name mode now s = elim s.user [
    | none ↦ s
    | some _ ↦ initiate_send id key peer name mode now (initiate_keypair id key (initiate_start s))
  ]

  -- ── whisper_init from the server ──

  pub on_whisper_init : InitRaw P → State E → State E
  on_whisper_init raw s = elim s.user [
    | none ↦ s
    | some me ↦ if raw.initiator_id == me then s else record s {
      incoming_invite = some (record {
        session_id = raw.session_id;
        initiator_id = raw.initiator_id;
        initiator_username = or_text? raw.initiator_username "Friend";
        pub_key = raw.pub_key;
        expiry_mode = or_default raw.expiry_mode persistent;
      });
    }
  ]

  -- ── acceptInvite ──

  pub accept_start : State E → State E
  accept_start s = elim s.user [
    | none ↦ s
    | some _ ↦ record s { is_connecting = true; incoming_invite = none; error_message = none }
  ]

  -- The answer sent, and the session stored unless its mode is session-only.
  pub accept_send : P.PrivateKey → Invite P → Secrets P → ℕ → State E → State E
  accept_send key invite r now s =
      let s1 =
        send_frame (whisper_accept invite.session_id (P.btoa (P.export_key (P.public_of key)))) s in
      if is_stored invite.expiry_mode
      then record s1 {
        db =
            save_session E
              (stored_session invite.session_id invite.initiator_id invite.initiator_username
                invite.expiry_mode r now)
              s1.db;
      }
      else s1

  select_dm : String → State E → State E
  select_dm peer s = elim (find (is_dm_with peer) s.channels.channels) [
    | none ↦ s
    | some c ↦
        send_receipt (set_active_channel (some c) s.channels).1
          (record s { channels = (set_active_channel (some c) s.channels).0 })
  ]
    where
      send_receipt : Option String → State E → State E
      send_receipt none s = s
      send_receipt (some id) s = send_frame (read_receipt id) s

  pub accept_finish : Invite P → Secrets P → ℕ → State E → State E
  unfolding select_dm
  accept_finish invite r now s = record (select_dm invite.initiator_id s) {
    is_connecting = false;
    is_whisper_mode_active = true;
    whisper_peer_id = some invite.initiator_id;
    active_session = some (record {
      session_id = invite.session_id;
      peer_id = invite.initiator_id;
      peer_username = invite.initiator_username;
      session_key = some r.session_key;
      expiry_mode = invite.expiry_mode;
      safety_number = r.safety_number;
      fingerprint_hex = r.fingerprint_hex;
      verified = false;
      initiated_by_me = false;
      messages = [];
      status = active;
      status_message = none;
      created_at = now;
    });
  }

  -- The whole action, nothing coming between.
  pub accept_invite : P.PrivateKey → Invite P → ℕ → String → State E → State E
  unfolding accept_start accept_send accept_finish derive_from
  accept_invite key invite now err s = elim s.user [
    | none ↦ s
    | some me ↦ elim (derive_from P key invite.pub_key invite.session_id me invite.initiator_id) [
      | none ↦ handshake_failed err (accept_start s)
      | some r ↦ accept_finish invite r now (accept_send key invite r now (accept_start s))
    ]
  ]

  pub reject_invite : String → State E → State E
  reject_invite id s = record (send_frame (whisper_reject id "declined") s) {
    incoming_invite = none;
  }
