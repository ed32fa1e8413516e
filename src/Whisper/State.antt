-- ===== src/Whisper/State.antt =====
-- client-web/src/store/whisperStore.ts: the state of the Whisper store, the actions that only set
-- fields, and the lines that hand a message to the socket (ws.ts). What an action reads and writes
-- besides the store (the signed-in user, the pending private keys, the database, the channels) is in
-- the state too; the frames sent and the object URLs revoked are lists, the newest last.
use nodetalk.Prelude.{
  ℕ, String, Bool, true, false, List, [], ◌∷◌, ◌++◌, Option, none, some, ◌==◌, if◌then◌else◌,
}
use nodetalk.Prelude.Dict.{Dict}
use nodetalk.Channels.{Store}
use nodetalk.Whisper.Platform.{Platform, FileKind}
use nodetalk.Whisper.Db.{ExpiryMode, Engine, Db}

-- `WhisperMessageFile`; its `thumbUrl` is never set.
pub record FileMeta : Type 0 where
  pub name : String
  pub mime : String
  pub size : ℕ
  pub data_base64 : String
  pub blob_url : Option String
  pub kind : Option FileKind
  pub duration : Option ℕ
  pub waveform : Option (List ℕ)

pub record MessageItem : Type 0 where
  pub id : String
  pub session_id : String
  pub sender_id : String
  pub text : Option String
  pub attached : Option FileMeta
  pub sent_at : ℕ
  pub expires_at : Option ℕ

pub data Status : Type 0 where
  active closed burned : Status

-- `ActiveWhisperSession`. The key is `null` while the peer has not accepted.
pub record Session (P : Platform) : Type 0 where
  pub session_id : String
  pub peer_id : String
  pub peer_username : String
  pub session_key : Option P.Key
  pub expiry_mode : ExpiryMode
  pub safety_number : List ℕ
  pub fingerprint_hex : List ℕ
  pub verified : Bool
  pub initiated_by_me : Bool
  pub messages : List MessageItem
  pub status : Status
  pub status_message : Option String
  pub created_at : ℕ

pub record Invite (P : Platform) : Type 0 where
  pub session_id : String
  pub initiator_id : String
  pub initiator_username : String
  pub pub_key : P.Base64
  pub expiry_mode : ExpiryMode

pub data Frame (P : Platform) : Type 0 where
  whisper_init : String → String → P.Base64 → ExpiryMode → Frame P
  whisper_accept : String → P.Base64 → Frame P
  whisper_reject : String → String → Frame P
  whisper_msg : String → P.Base64 → P.Base64 → Option ℕ → Frame P
  whisper_close : String → String → Frame P
  read_receipt : String → Frame P

pub record State {P : Platform} (E : Engine P) : Type 0 where
  pub active_session : Option (Session P)
  pub incoming_invite : Option (Invite P)
  pub is_whisper_mode_active : Bool
  pub whisper_peer_id : Option String
  pub is_start_modal_open : Bool
  pub is_safety_number_modal_open : Bool
  pub start_modal_peer : Option (String × String)
  pub is_connecting : Bool
  pub error_message : Option String
  -- the module's `pendingPrivateKeys`
  pub pending_private_keys : Dict P.PrivateKey
  pub user : Option String
  pub db : Db E
  pub channels : Store
  pub sent : List (Frame P)
  pub revoked : List String

-- `if (m.file?.blobUrl) URL.revokeObjectURL(m.file.blobUrl)`
abbrev pub blob_urls : MessageItem → List String
blob_urls m = elim m.attached [
  | none ↦ []
  | some f ↦ elim f.blob_url [ none ↦ [] | some url ↦ url ∷ [] ]
]

abbrev pub urls_of : List MessageItem → List String
urls_of [] = []
urls_of (m ∷ ms) = blob_urls m ++ urls_of ms

module _ {P : Platform} {E : Engine P} where
  unfoldable pub send_frame : Frame P → State E → State E
  send_frame f s = record s { sent = s.sent ++ f ∷ [] }

  -- `if (activeSession && activeSession.sessionId === id)`
  abbrev pub open_session : String → State E → Option (Session P)
  open_session id s = keep (s.active_session)
    where
      keep : Option (Session P) → Option (Session P)
      keep none = none
      keep (some x) = if x.session_id == id then some x else none

  -- ── The actions that set fields ──

  pub enter_whisper_mode : String → State E → State E
  enter_whisper_mode peer s = record s {
    is_whisper_mode_active = true;
    whisper_peer_id = some peer;
  }

  pub exit_whisper_mode : State E → State E
  exit_whisper_mode s = record s { is_whisper_mode_active = false }

  pub open_start_modal : String → String → State E → State E
  open_start_modal peer name s = record s {
    is_start_modal_open = true;
    start_modal_peer = some (peer, name);
    error_message = none;
  }

  pub close_start_modal : State E → State E
  close_start_modal s = record s { is_start_modal_open = false; start_modal_peer = none }

  pub open_safety_number_modal : State E → State E
  open_safety_number_modal s = record s { is_safety_number_modal_open = true }

  pub close_safety_number_modal : State E → State E
  close_safety_number_modal s = record s { is_safety_number_modal_open = false }

  pub dismiss_invite : State E → State E
  dismiss_invite s = record s { incoming_invite = none }

  pub clear_error : State E → State E
  clear_error s = record s { error_message = none }
