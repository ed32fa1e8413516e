-- ===== src/Whisper/Db/Laws.antt =====
-- What the operations of the database do to each row.
use nodetalk.Prelude.{
  ℕ, String, ◌≡◌, refl, ◌∙◌, Bool, not, List, [], ◌∷◌, map, Option, none, some, arith, ◌==◌,
  if◌then◌else◌, length,
}
use nodetalk.Prelude.IdSet.{has}
use nodetalk.Whisper.Platform.{Platform}
use nodetalk.Whisper.Table.{passes, keep_if, on_row}
use nodetalk.Whisper.Db.{
  StoredSession, StoredMessage, Engine, Db, is_expired, is_empty, message_key_of, save_message,
  delete_session, purge_expired_messages,
}

module _ {P : Platform} (E : Engine P) where
  open E use {sessions as S, messages as M}

  abbrev pub session_at : String → Db E → Option (StoredSession P)
  session_at id db = S.get id db.sessions

  abbrev pub message_at : String → Db E → Option (StoredMessage P)
  message_at id db = M.get id db.messages

  abbrev purge_of : List (StoredMessage P) → Db E → Db E × ℕ
  purge_of expired db = if is_empty expired then (db, 0) else (
    record db { messages = M.bulk_delete (map message_key_of expired) db.messages },
    length expired,
  )

  purge_rows :
      {k : String} {b : Bool} (expired : List (StoredMessage P)) (db : Db E)
      → has k (map message_key_of expired) ≡ b
      → M.get k (M.bulk_delete (map message_key_of expired) db.messages)
        ≡ keep_if (not (has k (map message_key_of expired))) (message_at k db)
      → (message_at k (purge_of expired db).0 ≡ keep_if (not b) (message_at k db))
        × (session_at k (purge_of expired db).0 ≡ session_at k db)
  unfolding has
  purge_rows [] db hs hb = ground arith
  purge_rows (m ∷ ms) db hs hb = (ground arith, refl)

  -- Purging takes the messages out that have expired by now, and no other message and no session.
  pub purge_expired_messages_lem :
      (now : ℕ) (k : String) (db : Db E)
      → let db' = (purge_expired_messages E now db).0 in
        (message_at k db'
          ≡ keep_if
              (not (passes (λ m. is_expired now m.expires_at) (message_at k db)))
              (message_at k db))
        × (session_at k db' ≡ session_at k db)
  unfolding purge_expired_messages
  purge_expired_messages_lem now k db =
      let p = λ (m : StoredMessage P). is_expired now m.expires_at in
      let hs = M.has-select k p db.messages in
      let hb = M.get-bulk_delete k (map message_key_of (M.select p db.messages)) db.messages in
      purge_rows (M.select p db.messages) db hs hb

  -- Deleting a session takes out its row and the messages that belong to it, and nothing else.
  pub delete_session_lem :
      (id k : String) (db : Db E)
      → let db' = delete_session E id db in
        (session_at k db' ≡ (if id == k then none else session_at k db))
        × (message_at k db'
            ≡ keep_if (not (passes (λ m. m.session_id == id) (message_at k db))) (message_at k db))
  unfolding delete_session has
  delete_session_lem id k db = (
    S.get-bulk_delete k (id ∷ []) db.sessions ∙ ground arith,
    M.get-delete_where k (λ m. m.session_id == id) db.messages,
  )

  -- Saving a message stores it under its id, notes the time in its session, and changes no other row.
  pub save_message_lem :
      (now : ℕ) (m : StoredMessage P) (k : String) (db : Db E)
      → let db' = save_message E now m db in
        (message_at k db' ≡ (if m.id == k then some m else message_at k db))
        × (session_at k db' ≡ (
            if m.session_id == k
            then on_row (λ s. record s { last_activity = now }) (session_at k db)
            else session_at k db))
  unfolding save_message
  save_message_lem now m k db =
      (M.get-put k m db.messages, S.get-update k m.session_id _ db.sessions (λ r. refl))
