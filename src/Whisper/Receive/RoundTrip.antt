-- ===== src/Whisper/Receive/RoundTrip.antt =====
-- What one side sends is what the other shows, and what is loaded from the database later.
use nodetalk.Prelude.{
  ℕ, String, ◌≡◌, refl, ap, ◌∙◌, true, false, ◌&&◌, List, [], ◌∷◌, ◌++◌, Option, none, some, arith,
  ◌==◌, if◌then◌else◌, nat_beq, or_text,
}
use nodetalk.Whisper.Platform.{Platform, HasContent}
use nodetalk.Whisper.Crypto.{◌>>=◌}
use nodetalk.Whisper.Crypto.Handshake.{decrypt-encrypt_payload}
use nodetalk.Whisper.Db.{Engine, ExpiryMode, StoredMessage}
use nodetalk.Whisper.Db.Laws.{message_at, save_message_lem}
use nodetalk.Whisper.State.{State, Session}
use nodetalk.Whisper.Start.{is_stored}
use nodetalk.Whisper.Send.{FileInput, Sending, expires_at, text_draft, voice_draft, item_of}
use nodetalk.Whisper.Send.Overlap.{sending, ciphertext_of, stored_of, open_in}
use nodetalk.Whisper.Receive.{
  MsgRaw, Receiving, given_time, kind_of, file_meta, file_part, item_for, on_msg_start, on_msg_save,
  on_msg_finish, on_whisper_msg, load_message,
}

given_time-expires_at :
    (mode : ExpiryMode) (now : ℕ) → given_time (expires_at mode now) ≡ expires_at mode now
unfolding expires_at
given_time-expires_at ExpiryMode.persistent now = refl
given_time-expires_at ExpiryMode.five_minutes now = ground arith
given_time-expires_at ExpiryMode.one_hour now = ground arith
given_time-expires_at ExpiryMode.one_day now = ground arith
given_time-expires_at ExpiryMode.session_only now = refl

module _ {P : Platform} (to_blob_url : String → String → Option String) where
  -- A sent message that is loaded from the database is the item made of its payload, with the id, the
  -- sender and the times under which it was stored.
  load-stored :
      (c : Sending P) (nonce : P.Blob) (id : String)
      → HasContent c.draft.payload
      → load_message to_blob_url c.key (stored_of c nonce id)
        ≡ item_for to_blob_url c.draft.payload id c.session.session_id c.me c.now c.expires
  unfolding load_message
  load-stored c nonce id h =
      ap
        (λ o. o >>= (λ payload.
          item_for to_blob_url payload id c.session.session_id c.me c.now c.expires))
        (decrypt-encrypt_payload P c.key nonce c.draft.payload h)

  -- A text message that was sent and stored is loaded as the same item that was shown when it was sent.
  pub text_sent_loads :
      (text : String) (now : ℕ) (x : Session P) (key : P.Key) (me : String) (nonce : P.Blob)
      (id : String)
      → let c = sending (text_draft text) now x key me in
        load_message to_blob_url key (stored_of c nonce id) ≡ some (item_of c id)
  unfolding item_for file_part text_draft
  text_sent_loads text now x key me nonce id =
      load-stored (sending (text_draft text) now x key me) nonce id tt

  -- A voice message that was sent and stored is loaded as the item that was shown when it was sent,
  -- except for the object URL, which is the new one. The file is not empty and its content decodes.
  pub voice_sent_loads :
      (f : FileInput) (url : String) (duration : Option ℕ) (waveform : Option (List ℕ)) (now : ℕ)
      (x : Session P) (key : P.Key) (me : String) (nonce : P.Blob) (id : String)
      → (f.data_base64 == "") ≡ false
      → to_blob_url f.data_base64 (or_text f.mime "audio/ogg") ≡ some url
      → let c = sending (voice_draft f duration waveform) now x key me in
        let shown =
          sending (voice_draft (record f { blob_url = url }) duration waveform) now x key me in
        load_message to_blob_url key (stored_of c nonce id) ≡ some (item_of shown id)
  unfolding item_for file_part file_meta kind_of voice_draft
  voice_sent_loads f url duration waveform now x key me nonce id hd hu =
      load-stored (sending (voice_draft f duration waveform) now x key me) nonce id tt
      ∙ rw (hd, hu) refl

-- The frame of a text message as the server passes it on, with the sender's id and a time added.
abbrev pub relayed : {P : Platform} → Sending P → P.Blob → ℕ → MsgRaw P
relayed {P = P} c nonce sent_at = record {
  session_id = c.session.session_id;
  sender_id = c.me;
  ciphertext = P.btoa (ciphertext_of c nonce);
  nonce = P.btoa nonce;
  sent_at = sent_at;
  expires_at = c.expires;
}

-- The row of a message that came in.
abbrev pub stored_item : {P : Platform} → Receiving P → StoredMessage P
stored_item c = record {
  id = c.item.id;
  session_id = c.item.session_id;
  sender_id = c.item.sender_id;
  ciphertext = c.ciphertext;
  nonce = c.nonce;
  sent_at = c.item.sent_at;
  expires_at = c.item.expires_at;
}

-- What the other side shows and stores for it.
abbrev pub taken_in : {P : Platform} → Sending P → P.Blob → ℕ → String → Session P → Receiving P
taken_in {P = P} c nonce sent_at id y = record {
  session = y;
  ciphertext = ciphertext_of c nonce;
  nonce = nonce;
  item = record (item_of c id) { sent_at = sent_at };
}

module _ {P : Platform} {E : Engine P} (to_blob_url : String → String → Option String) where
  on_msg_start_lem :
      (text : String) (now sent_at received : ℕ) (x y : Session P) (key : P.Key) (me peer : String)
      (nonce : P.Blob) (id : String) (s : State E)
      → (y.session_id == x.session_id) ≡ true
      → y.session_key ≡ some key
      → nat_beq sent_at 0 ≡ false
      → let c = sending (text_draft text) now x key me in
        on_msg_start to_blob_url (relayed c nonce sent_at) id received (open_in y peer s)
        ≡ some (taken_in c nonce sent_at id y)
  unfolding on_msg_start item_for file_part text_draft
  on_msg_start_lem text now sent_at received x y key me peer nonce id s hi hk ht =
      let c = sending (text_draft text) now x key me in
      rw
        (
          hi,
          hk,
          P.atob-btoa (ciphertext_of c nonce),
          P.atob-btoa nonce,
          decrypt-encrypt_payload P key nonce c.draft.payload tt,
          ht,
          given_time-expires_at x.expiry_mode now,
        )
        refl

  on_msg_save_db :
      (c : Receiving P) (k : String) (t : ℕ) (s : State E)
      → message_at E k (on_msg_save to_blob_url c t s).db ≡ (
          if is_stored c.session.expiry_mode && c.item.id == k
          then some (stored_item c)
          else message_at E k s.db)
  unfolding on_msg_save
  on_msg_save_db c k t s = ground (arith, (save_message_lem E t (stored_item c) k s.db).0)

  -- The frame of a text message that reaches the other side of the session, with the sender's id and
  -- a time added: the text is shown after the other messages there, with the sender's time of expiry,
  -- and the encrypted message is in the database under its new id, unless the mode is session-only,
  -- and no other message changes there. Both sides have the same session id and key.
  pub receive-send :
      (text : String) (now sent_at received : ℕ) (x y : Session P) (key : P.Key) (me peer : String)
      (nonce : P.Blob) (id k : String) (s : State E)
      → (y.session_id == x.session_id) ≡ true
      → y.session_key ≡ some key
      → nat_beq sent_at 0 ≡ false
      → let c = sending (text_draft text) now x key me in
        let d = taken_in c nonce sent_at id y in
        let s' =
          on_whisper_msg to_blob_url (relayed c nonce sent_at) id received (open_in y peer s) in
        (s'.active_session ≡ some (record y { messages = y.messages ++ d.item ∷ [] }))
        × (d.item.text ≡ some text)
        × (d.item.expires_at ≡ expires_at x.expiry_mode now)
        × (message_at E k s'.db ≡ (
            if is_stored y.expiry_mode && id == k
            then some (stored_item d)
            else message_at E k s.db))
  unfolding on_whisper_msg on_msg_finish text_draft
  receive-send text now sent_at received x y key me peer nonce id k s hi hk ht =
      let c = sending (text_draft text) now x key me in
      let d = taken_in c nonce sent_at id y in
      let s0 : State E = open_in y peer s in
      let e =
        ap
          (λ (o : Option (Receiving P)). elim o [
            | none ↦ s0
            | some r ↦ on_msg_finish to_blob_url r (on_msg_save to_blob_url r received s0)
          ])
          (on_msg_start_lem text now sent_at received x y key me peer nonce id s hi hk ht) in
      (
        ap (λ (z : State E). z.active_session) e,
        refl,
        refl,
        ap (λ (z : State E). message_at E k z.db) e ∙ on_msg_save_db d k received s0,
      )
