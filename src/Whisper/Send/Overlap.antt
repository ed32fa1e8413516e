-- ===== src/Whisper/Send/Overlap.antt =====
-- What one send does, and what happens when another action comes between its steps.
use nodetalk.Prelude.{
  ℕ, String, ◌≡◌, refl, ap, ◌∙◌, ◌&&◌, [], ◌∷◌, ◌++◌, none, some, arith, ◌==◌, eq_refl,
  if◌then◌else◌,
}
use nodetalk.Whisper.Platform.{Platform}
use nodetalk.Whisper.Crypto.{whisper_encrypt_payload}
use nodetalk.Whisper.Db.{Engine, StoredMessage}
use nodetalk.Whisper.Db.Laws.{message_at, save_message_lem}
use nodetalk.Whisper.State.{State, Session, Frame, whisper_msg, send_frame}
use nodetalk.Whisper.Start.{is_stored}
use nodetalk.Whisper.Send.{
  Draft, Sending, expires_at, send_start, send_encrypted, send_finish, send_draft, item_of,
}
use nodetalk.Whisper.Close.{burn_session}
use nodetalk.Whisper.Close.Cleanup.{burn_session_closes}

-- What a call keeps that starts in this session.
abbrev pub sending : {P : Platform} → Draft → ℕ → Session P → P.Key → String → Sending P
sending {P = P} draft now x key me = record {
  session = x;
  key = key;
  me = me;
  now = now;
  expires = expires_at x.expiry_mode now;
  draft = draft;
}

abbrev pub ciphertext_of : {P : Platform} → Sending P → P.Blob → P.Blob
ciphertext_of {P = P} c nonce = whisper_encrypt_payload P c.key nonce c.draft.payload

abbrev pub frame_of : {P : Platform} → Sending P → P.Blob → Frame P
frame_of {P = P} c nonce =
    whisper_msg c.session.session_id (P.btoa (ciphertext_of {P = P} c nonce)) (P.btoa nonce)
      c.expires

abbrev pub stored_of : {P : Platform} → Sending P → P.Blob → String → StoredMessage P
stored_of {P = P} c nonce id = record {
  id = id;
  session_id = c.session.session_id;
  sender_id = c.me;
  ciphertext = ciphertext_of {P = P} c nonce;
  nonce = nonce;
  sent_at = c.now;
  expires_at = c.expires;
}

module _ {P : Platform} {E : Engine P} where
  -- Any state in which this user is signed in and this session is open.
  abbrev pub open_in : Session P → String → State E → State E
  open_in x me s = record s { user = some me; active_session = some x }

  send_start_lem :
      (draft : Draft) (now : ℕ) (x : Session P) (key : P.Key) (me : String) (s : State E)
      → x.session_key ≡ some key
      → send_start draft now (open_in x me s) ≡ some (sending draft now x key me)
  unfolding send_start
  send_start_lem draft now x key me s h = rw h refl

  send_encrypted_sent :
      (c : Sending P) (nonce : P.Blob) (id : String) (t : ℕ) (s : State E)
      → (send_encrypted c nonce id t s).sent ≡ s.sent ++ frame_of c nonce ∷ []
  unfolding send_encrypted send_frame
  send_encrypted_sent c nonce id t s = ground arith

  send_encrypted_active :
      (c : Sending P) (nonce : P.Blob) (id : String) (t : ℕ) (s : State E)
      → ((send_encrypted c nonce id t s).active_session ≡ s.active_session)
        × ((send_encrypted c nonce id t s).user ≡ s.user)
  unfolding send_encrypted send_frame
  send_encrypted_active c nonce id t s = ground arith

  send_encrypted_db :
      (c : Sending P) (nonce : P.Blob) (id k : String) (t : ℕ) (s : State E)
      → message_at E k (send_encrypted c nonce id t s).db ≡ (
          if is_stored c.session.expiry_mode && id == k
          then some (stored_of c nonce id)
          else message_at E k s.db)
  unfolding send_encrypted send_frame
  send_encrypted_db c nonce id k t s =
      ground (arith, (save_message_lem E t (stored_of c nonce id) k s.db).0)

  send_draft_steps :
      (draft : Draft) (now : ℕ) (nonce : P.Blob) (id : String) (x : Session P) (key : P.Key)
      (me : String) (s : State E)
      → x.session_key ≡ some key
      → let c = sending draft now x key me in
        send_draft draft now nonce id (open_in x me s)
        ≡ send_finish c id (send_encrypted c nonce id now (open_in x me s))
  unfolding send_draft
  send_draft_steps draft now nonce id x key me s h =
      ap
        (λ o. elim o [
          | none ↦ open_in x me s
          | some c ↦ send_finish c id (send_encrypted c nonce id now (open_in x me s))
        ])
        (send_start_lem draft now x key me s h)

  -- One send in an open session with a key, nothing coming between: the message is shown after the
  -- others, one frame with the encrypted payload and the time of expiry goes out, and the encrypted
  -- payload is in the database under the message's id, unless the mode is session-only, and no other
  -- message changes there.
  pub send_draft_lem :
      (draft : Draft) (now : ℕ) (nonce : P.Blob) (id k : String) (x : Session P) (key : P.Key)
      (me : String) (s : State E)
      → x.session_key ≡ some key
      → let c = sending draft now x key me in
        let s' = send_draft draft now nonce id (open_in x me s) in
        (s'.active_session ≡ some (record x { messages = x.messages ++ item_of c id ∷ [] }))
        × (s'.sent ≡ s.sent ++ frame_of c nonce ∷ [])
        × (message_at E k s'.db ≡ (
            if is_stored x.expiry_mode && id == k
            then some (stored_of c nonce id)
            else message_at E k s.db))
  unfolding send_finish
  send_draft_lem draft now nonce id k x key me s h =
      let c = sending draft now x key me in
      let e = send_draft_steps draft now nonce id x key me s h in
      (
        ap (λ (z : State E). z.active_session) e,
        ap (λ (z : State E). z.sent) e ∙ send_encrypted_sent c nonce id now (open_in x me s),
        ap (λ (z : State E). message_at E k z.db) e
            ∙ send_encrypted_db c nonce id k now (open_in x me s),
      )

  -- Two sends that overlap: the second starts while the first waits for its encryption, and then both
  -- go on, one after the other. Both start in the session as it was, both frames go out, and at the end
  -- the session shows the second message alone: the first one is not shown.
  pub overlapping_sends :
      (d1 d2 : Draft) (t1 t2 u1 u2 : ℕ) (n1 n2 : P.Blob) (i1 i2 : String) (x : Session P)
      (key : P.Key) (me : String) (s : State E)
      → x.session_key ≡ some key
      → let c1 = sending d1 t1 x key me in
        let c2 = sending d2 t2 x key me in
        let one = send_finish c1 i1 (send_encrypted c1 n1 i1 u1 (open_in x me s)) in
        let two = send_finish c2 i2 (send_encrypted c2 n2 i2 u2 one) in
        (send_start d1 t1 (open_in x me s) ≡ some c1)
        × (send_start d2 t2 (open_in x me s) ≡ some c2)
        × (two.sent ≡ s.sent ++ frame_of c1 n1 ∷ [] ++ frame_of c2 n2 ∷ [])
        × (one.active_session ≡ some (record x { messages = x.messages ++ item_of c1 i1 ∷ [] }))
        × (two.active_session ≡ some (record x { messages = x.messages ++ item_of c2 i2 ∷ [] }))
  unfolding send_finish
  overlapping_sends d1 d2 t1 t2 u1 u2 n1 n2 i1 i2 x key me s h =
      let c1 = sending d1 t1 x key me in
      let c2 = sending d2 t2 x key me in
      let one = send_finish c1 i1 (send_encrypted c1 n1 i1 u1 (open_in x me s)) in
      (
        send_start_lem d1 t1 x key me s h,
        send_start_lem d2 t2 x key me s h,
        send_encrypted_sent c2 n2 i2 u2 one
            ∙ ap (λ f. f ++ frame_of c2 n2 ∷ []) (send_encrypted_sent c1 n1 i1 u1 (open_in x me s)),
        refl,
        refl,
      )

  -- A send that waits for the encryption while the user burns the session: when it goes on, the burnt
  -- session is open again, with its messages and its key, and the message is in the database, unless
  -- the mode is session-only.
  pub send_across_burn :
      (draft : Draft) (now t : ℕ) (nonce : P.Blob) (id : String) (x : Session P) (key : P.Key)
      (me : String) (s : State E)
      → x.session_key ≡ some key
      → let c = sending draft now x key me in
        let burnt = burn_session (open_in x me s) in
        let s' = send_finish c id (send_encrypted c nonce id t burnt) in
        (send_start draft now (open_in x me s) ≡ some c)
        × (burnt.active_session ≡ none)
        × (s'.active_session ≡ some (record x { messages = x.messages ++ item_of c id ∷ [] }))
        × (message_at E id s'.db ≡ (
            if is_stored x.expiry_mode
            then some (stored_of c nonce id)
            else message_at E id burnt.db))
  unfolding send_finish
  send_across_burn draft now t nonce id x key me s h =
      let c = sending draft now x key me in
      let burnt = burn_session (open_in x me s) in
      (
        send_start_lem draft now x key me s h,
        burn_session_closes x (open_in x me s) refl,
        refl,
        send_encrypted_db c nonce id id t burnt ∙ ground (arith, eq_refl id),
      )
