-- ===== src/Whisper/Receive.antt =====
-- client-web/src/store/whisperStore.ts: an encrypted message that comes in, and the session of a peer
-- that is loaded from the database. `base64ToBlobUrl` is an argument, `none` where it throws.
pub mod RoundTrip
use nodetalk.Prelude.{
  ℕ, String, Bool, true, false, List, [], ◌∷◌, ◌++◌, Option, none, some, ◌==◌, if◌then◌else◌,
  or_text, nat_beq,
}
use text.Mathlib.Text.{starts_with}
use nodetalk.Whisper.Platform.{Platform, FileKind, plain, voice, video, Attachment, Payload}
use nodetalk.Whisper.Crypto.{whisper_decrypt_payload, ◌>>=◌}
use nodetalk.Whisper.Db.{
  Engine, StoredMessage, StoredSession, save_message, get_messages, get_session_by_peer_id,
}
use nodetalk.Whisper.State.{State, Session, FileMeta, MessageItem, open_session, active, urls_of}
use nodetalk.Whisper.Start.{is_stored}

-- The payload of a `whisper_msg` frame; `sent_at` is 0 where it is missing.
pub record MsgRaw (P : Platform) : Type 0 where
  pub session_id : String
  pub sender_id : String
  pub ciphertext : P.Base64
  pub nonce : P.Base64
  pub sent_at : ℕ
  pub expires_at : Option ℕ

pub kind_of : Attachment → FileKind
kind_of a = elim a.kind [
  | some k ↦ k
  | none ↦
      if starts_with a.mime "audio/"
      then voice
      else (if starts_with a.mime "video/" then video else plain)
]

-- `raw.expires_at || null`
abbrev pub given_time : Option ℕ → Option ℕ
given_time none = none
given_time (some t) = if nat_beq t 0 then none else some t

abbrev BlobUrl : Type 0
BlobUrl = String → String → Option String

-- `none`: `base64ToBlobUrl` throws.
pub file_meta : (String → String → Option String) → Attachment → Option FileMeta
unfolding kind_of
file_meta to_blob_url a = do
  url ← blob (a.data_base64 == "")
  some (record {
    name = a.name;
    mime = a.mime;
    size = a.size;
    data_base64 = a.data_base64;
    blob_url = url;
    kind = some (kind_of a);
    duration = a.duration;
    waveform = a.waveform;
  })
  where
    blob : Bool → Option (Option String)
    blob true = some none
    blob false = do url ← to_blob_url a.data_base64 a.mime; some (some url)

-- The file of a payload, if it has one.
file_part : BlobUrl → Option Attachment → Option (Option FileMeta)
unfolding file_meta
file_part to_blob_url none = some none
file_part to_blob_url (some a) = do f ← file_meta to_blob_url a; some (some f)

-- The item shown for a payload.
pub item_for :
    (String → String → Option String)
    → Payload
    → String
    → String
    → String
    → ℕ
    → Option ℕ
    → Option MessageItem
unfolding file_part
item_for to_blob_url payload id session_id sender_id sent_at expires_at = do
  attached ← file_part to_blob_url payload.attachment
  some (record {
    id = id;
    session_id = session_id;
    sender_id = sender_id;
    text = payload.text;
    attached = attached;
    sent_at = sent_at;
    expires_at = expires_at;
  })

-- What one run of the `whisper_msg` handler keeps across its `await`s.
pub record Receiving (P : Platform) : Type 0 where
  pub session : Session P
  pub ciphertext : P.Blob
  pub nonce : P.Blob
  pub item : MessageItem

module _ {P : Platform} (to_blob_url : String → String → Option String) where
  -- One message of the database: `none` if it does not decrypt, which is logged.
  pub load_message : P.Key → StoredMessage P → Option MessageItem
  unfolding item_for
  load_message key m = do
    payload ← whisper_decrypt_payload P key m.ciphertext m.nonce
    item_for to_blob_url payload m.id m.session_id m.sender_id m.sent_at m.expires_at

  pub load_messages : P.Key → List (StoredMessage P) → List MessageItem
  unfolding load_message
  load_messages key [] = []
  load_messages key (m ∷ ms) = elim (load_message key m) [
    | none ↦ load_messages key ms
    | some item ↦ item ∷ load_messages key ms
  ]

module _ {P : Platform} {E : Engine P} (to_blob_url : String → String → Option String) where
  -- The guards, the decryption and the new item: `none` if the handler ends here, by a guard or by
  -- an exception, which is logged.
  pub on_msg_start : MsgRaw P → String → ℕ → State E → Option (Receiving P)
  unfolding item_for
  on_msg_start raw id now s = do
    session ← open_session raw.session_id s
    key ← session.session_key
    ciphertext ← P.atob raw.ciphertext
    nonce ← P.atob raw.nonce
    payload ← whisper_decrypt_payload P key ciphertext nonce
    item ←
        item_for to_blob_url payload id raw.session_id raw.sender_id
          (if nat_beq raw.sent_at 0 then now else raw.sent_at) (given_time raw.expires_at)
    some (record { session = session; ciphertext = ciphertext; nonce = nonce; item = item })

  pub on_msg_save : Receiving P → ℕ → State E → State E
  on_msg_save c saved_at s =
      if is_stored c.session.expiry_mode
      then record s {
        db =
            save_message E saved_at
              (record {
                id = c.item.id;
                session_id = c.item.session_id;
                sender_id = c.item.sender_id;
                ciphertext = c.ciphertext;
                nonce = c.nonce;
                sent_at = c.item.sent_at;
                expires_at = c.item.expires_at;
              })
              s.db;
      }
      else s

  pub on_msg_finish : Receiving P → State E → State E
  on_msg_finish c s = record s {
    active_session = some (record c.session { messages = c.session.messages ++ c.item ∷ [] });
  }

  -- The whole handler, nothing coming between.
  pub on_whisper_msg : MsgRaw P → String → ℕ → State E → State E
  unfolding on_msg_start on_msg_save on_msg_finish
  on_whisper_msg raw id now s = elim (on_msg_start raw id now s) [
    | none ↦ s
    | some c ↦ on_msg_finish c (on_msg_save c now s)
  ]

  -- ── loadSessionForPeer ──

  -- The object URLs of the session that is open go, before the messages are read.
  load_revoke : State E → State E
  load_revoke s = elim s.active_session [
    | none ↦ s
    | some session ↦ record s { revoked = s.revoked ++ urls_of session.messages }
  ]

  load_finish : StoredSession P → String → String → List (StoredMessage P) → State E → State E
  unfolding load_messages
  load_finish stored peer name messages s = record s {
    active_session = some (record {
      session_id = stored.session_id;
      peer_id = stored.peer_id;
      peer_username = or_text stored.peer_username name;
      session_key = some stored.session_key;
      expiry_mode = stored.expiry_mode;
      safety_number = stored.safety_number;
      fingerprint_hex = stored.fingerprint_hex;
      verified = stored.verified;
      initiated_by_me = false;
      messages = load_messages to_blob_url stored.session_key messages;
      status = active;
      status_message = none;
      created_at = stored.created_at;
    });
    is_whisper_mode_active = true;
    whisper_peer_id = some peer;
  }

  -- The whole action, nothing coming between: the new state and the result.
  pub load_session_for_peer : String → String → State E → State E × Bool
  unfolding load_revoke load_finish
  load_session_for_peer peer name s = elim (get_session_by_peer_id E peer s.db) [
    | none ↦ (s, false)
    | some stored ↦
        (load_finish stored peer name (get_messages E stored.session_id s.db) (load_revoke s), true)
  ]
