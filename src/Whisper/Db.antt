-- ===== src/Whisper/Db.antt =====
-- client-web/src/lib/whisperDb.ts: the persisted sessions and messages. `Date.now()` is an argument.
pub mod Laws
use nodetalk.Prelude.{
  ℕ, String, ◌≡◌, Bool, true, false, List, [], ◌∷◌, map, Option, none, some, leb, ◌==◌,
  if◌then◌else◌, length,
}
use nodetalk.Prelude.IdSet.{has}
use nodetalk.Whisper.Platform.{Platform}
use nodetalk.Whisper.Table.{Table}

pub data ExpiryMode : Type 0 where
  persistent five_minutes one_hour one_day session_only : ExpiryMode

pub record StoredSession (P : Platform) : Type 0 where
  pub session_id : String
  pub peer_id : String
  pub peer_username : String
  pub session_key : P.Key
  pub expiry_mode : ExpiryMode
  pub safety_number : List ℕ
  pub fingerprint_hex : List ℕ
  pub verified : Bool
  pub created_at : ℕ
  pub last_activity : ℕ

pub record StoredMessage (P : Platform) : Type 0 where
  pub id : String
  pub session_id : String
  pub sender_id : String
  pub ciphertext : P.Blob
  pub nonce : P.Blob
  pub sent_at : ℕ
  pub expires_at : Option ℕ

abbrev pub session_key_of : {P : Platform} → StoredSession P → String
session_key_of s = s.session_id

abbrev pub message_key_of : {P : Platform} → StoredMessage P → String
message_key_of m = m.id

abbrev pub last {ℓ} : {A : Type ℓ} → List A → Option A
last [] = none
last (x ∷ []) = some x
last (x ∷ y ∷ xs) = last (y ∷ xs)

abbrev pub is_empty {ℓ} : {A : Type ℓ} → List A → Bool
is_empty [] = true
is_empty (x ∷ xs) = false

-- The database: one table each.
pub record Engine (P : Platform) : Type 1 where
  pub sessions : Table (StoredSession P) session_key_of
  pub messages : Table (StoredMessage P) message_key_of
  -- Dexie's `sortBy('sentAt')`, which only puts the rows in order
  pub sort_by_sent_at : List (StoredMessage P) → List (StoredMessage P)
  pub has-sort_by_sent_at :
      (k : String) (ms : List (StoredMessage P))
      → has k (map message_key_of (sort_by_sent_at ms)) ≡ has k (map message_key_of ms)

-- `where('expiresAt').belowOrEqual(now)`: a row with null is in no index.
abbrev pub is_expired : ℕ → Option ℕ → Bool
is_expired now none = false
is_expired now (some t) = leb t now

module _ {P : Platform} (E : Engine P) where
  open E use {sessions as S, messages as M}

  pub record Db : Type 0 where
    pub sessions : S.Rows
    pub messages : M.Rows

  unfoldable pub save_session : StoredSession P → Db → Db
  save_session s db = record db { sessions = S.put s db.sessions }

  unfoldable pub get_session : String → Db → Option (StoredSession P)
  get_session id db = S.get id db.sessions

  unfoldable pub get_session_by_peer_id : String → Db → Option (StoredSession P)
  get_session_by_peer_id peer_id db = last (S.select (λ s. s.peer_id == peer_id) db.sessions)

  unfoldable pub set_session_verified : String → Bool → Db → Db
  set_session_verified id v db = record db {
    sessions = S.update id (λ s. record s { verified = v }) db.sessions;
  }

  -- The two awaited writes of `saveMessage`.
  unfoldable pub save_message : ℕ → StoredMessage P → Db → Db
  save_message now m db = record db {
    messages = M.put m db.messages;
    sessions = S.update m.session_id (λ s. record s { last_activity = now }) db.sessions;
  }

  unfoldable pub get_messages : String → Db → List (StoredMessage P)
  get_messages session_id db =
      E.sort_by_sent_at (M.select (λ m. m.session_id == session_id) db.messages)

  unfoldable pub delete_session : String → Db → Db
  delete_session session_id db = record db {
    messages = M.delete_where (λ m. m.session_id == session_id) db.messages;
    sessions = S.bulk_delete (session_id ∷ []) db.sessions;
  }

  -- The new database, and the number of rows that went.
  unfoldable pub purge_expired_messages : ℕ → Db → Db × ℕ
  purge_expired_messages now db =
      let expired = M.select (λ m. is_expired now m.expires_at) db.messages in
      if is_empty expired then (db, 0) else (
        record db { messages = M.bulk_delete (map message_key_of expired) db.messages },
        length expired,
      )

  unfoldable pub clear_all_whisper_data : Db → Db
  clear_all_whisper_data db = record db { messages = M.empty; sessions = S.empty }
