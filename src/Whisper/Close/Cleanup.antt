-- ===== src/Whisper/Close/Cleanup.antt =====
-- What is left of a session when it ends: its pending private key, its messages and its object URLs.
use mathlib.Core.List.{append-nil}
use nodetalk.Prelude.{
  ℕ, String, ◌≡◌, refl, sym, ap, ◌∙◌, false, not, List, [], ◌∷◌, ◌++◌, Option, none, some, arith,
  ◌==◌, eq_refl, if◌then◌else◌, filter, any, Bool-cases, inl, inr,
}
use nodetalk.Prelude.Dict.{lookup, erase, lookup-erase}
use nodetalk.Whisper.Platform.{Platform}
use nodetalk.Whisper.Table.{passes, keep_if}
use nodetalk.Whisper.Db.{Engine, is_expired, purge_expired_messages}
use nodetalk.Whisper.Db.Laws.{
  message_at, session_at, delete_session_lem, purge_expired_messages_lem,
}
use nodetalk.Whisper.State.{State, Session, MessageItem, whisper_close, send_frame, urls_of}
use nodetalk.Whisper.Start.Answer.{on_whisper_reject}
use nodetalk.Whisper.Close.{
  burn_session, burn_start, burn_finish, close_session, close_open, on_whisper_close,
  on_whisper_error, peer_burned_start, peer_burned_finish, sweep_purge, peer_closed, gone_by, sweep,
  sweep_session,
}

filter_all :
    (now : ℕ) (ms : List MessageItem)
    → any (gone_by now) ms ≡ false
    → filter (λ m. not (gone_by now m)) ms ≡ ms
unfolding filter any
filter_all now [] h = refl
filter_all now (m ∷ ms) h = ground (arith, filter_all now ms)

filter_none :
    (now : ℕ) (ms : List MessageItem) → any (gone_by now) ms ≡ false → filter (gone_by now) ms ≡ []
unfolding filter any
filter_none now [] h = refl
filter_none now (m ∷ ms) h = ground (arith, filter_none now ms)

module _ {P : Platform} where
  -- The session that the sweep writes back, which is the one that was open when it began.
  abbrev pub swept_session : ℕ → Session P → Option (Session P) → Option (Session P)
  swept_session now x open_now =
      if any (gone_by now) x.messages
      then some (record x { messages = filter (λ m. not (gone_by now m)) x.messages })
      else open_now

  swept_alone :
      (now : ℕ) (x : Session P)
      → swept_session now x (some x)
        ≡ some (record x { messages = filter (λ m. not (gone_by now m)) x.messages })
  swept_alone now x = elim (Bool-cases (any (gone_by now) x.messages)) [
    | inl e ↦ rw e refl
    | inr e ↦ rw (e, filter_all now x.messages e) refl
  ]

module _ {P : Platform} {E : Engine P} where
  burn_steps :
      (x : Session P) (s : State E)
      → s.active_session ≡ some x
      → burn_session s ≡ burn_finish (burn_start x s)
  unfolding burn_session
  burn_steps x s h =
      ap
        (λ (o : Option (Session P)). elim o [
          | none ↦ record s { is_whisper_mode_active = false }
          | some y ↦ burn_finish (burn_start y s)
        ])
        h

  pub burn_session_closes :
      (x : Session P) (s : State E)
      → s.active_session ≡ some x
      → (burn_session s).active_session ≡ none
  unfolding burn_finish
  burn_session_closes x s h = ap (λ (z : State E). z.active_session) (burn_steps x s h)

  -- Burning the open session: no session is open, the peer is told, its pending private key is gone,
  -- the object URLs of its messages are revoked, its row and the messages that belong to it are out of
  -- the database, and every other row stays.
  pub burn_session_lem :
      (x : Session P) (k : String) (s : State E)
      → s.active_session ≡ some x
      → let s' = burn_session s in
        (s'.active_session ≡ none)
        × (s'.sent ≡ s.sent ++ whisper_close x.session_id "burned" ∷ [])
        × (lookup x.session_id s'.pending_private_keys ≡ none)
        × (s'.revoked ≡ s.revoked ++ urls_of x.messages)
        × (session_at E k s'.db ≡ (if x.session_id == k then none else session_at E k s.db))
        × (message_at E k s'.db
            ≡ keep_if
                (not (passes (λ m. m.session_id == x.session_id) (message_at E k s.db)))
                (message_at E k s.db))
  unfolding burn_finish burn_start send_frame
  burn_session_lem x k s h =
      let e = burn_steps x s h in
      let same = eq_refl x.session_id in
      let gone = lookup-erase x.session_id x.session_id s.pending_private_keys in
      let (rows, messages) = delete_session_lem E x.session_id k s.db in
      (
        ap (λ (z : State E). z.active_session) e,
        ap (λ (z : State E). z.sent) e,
        ap (λ (z : State E). lookup x.session_id z.pending_private_keys) e ∙ ground arith,
        ap (λ (z : State E). z.revoked) e,
        ap (λ (z : State E). session_at E k z.db) e ∙ rows,
        ap (λ (z : State E). message_at E k z.db) e ∙ messages,
      )

  rejected_keys :
      (id : String) (s : State E)
      → (on_whisper_reject id s).pending_private_keys ≡ erase id s.pending_private_keys
  unfolding on_whisper_reject
  rejected_keys id s = ground arith

  closed_keys :
      (id : String) (reason : Option String) (s : State E)
      → (on_whisper_close id reason s).pending_private_keys ≡ erase id s.pending_private_keys
  unfolding on_whisper_close peer_burned_start peer_burned_finish peer_closed
  closed_keys id reason s = ground arith

  error_keys :
      (id : String) (err : Option String) (s : State E)
      → (on_whisper_error id err s).pending_private_keys ≡ erase id s.pending_private_keys
  unfolding on_whisper_error
  error_keys id err s = ground arith

  close_session_keys :
      (x : Session P) (s : State E)
      → s.active_session ≡ some x
      → (close_session s).pending_private_keys ≡ erase x.session_id s.pending_private_keys
  unfolding close_session close_open send_frame
  close_session_keys x s h = ground arith

  burn_session_keys :
      (x : Session P) (s : State E)
      → s.active_session ≡ some x
      → (burn_session s).pending_private_keys ≡ erase x.session_id s.pending_private_keys
  unfolding burn_finish burn_start send_frame
  burn_session_keys x s h = ap (λ (z : State E). z.pending_private_keys) (burn_steps x s h)

  -- Whichever way a session ends while it is open (the peer declines, closes or burns it, the server
  -- reports an error, or the user closes or burns it), its pending private key is gone, and the key of
  -- every other session stays.
  pub ended_session_forgets_key :
      (k : String) (err reason : Option String) (x : Session P) (s : State E)
      → s.active_session ≡ some x
      → let left = if x.session_id == k then none else lookup k s.pending_private_keys in
        (lookup k (on_whisper_reject x.session_id s).pending_private_keys ≡ left)
        × (lookup k (on_whisper_close x.session_id reason s).pending_private_keys ≡ left)
        × (lookup k (on_whisper_error x.session_id err s).pending_private_keys ≡ left)
        × (lookup k (close_session s).pending_private_keys ≡ left)
        × (lookup k (burn_session s).pending_private_keys ≡ left)
  ended_session_forgets_key k err reason x s h =
      let gone = lookup-erase x.session_id k s.pending_private_keys in
      (
        ap (lookup k) (rejected_keys x.session_id s) ∙ gone,
        ap (lookup k) (closed_keys x.session_id reason s) ∙ gone,
        ap (lookup k) (error_keys x.session_id err s) ∙ gone,
        ap (lookup k) (close_session_keys x s h) ∙ gone,
        ap (lookup k) (burn_session_keys x s h) ∙ gone,
      )

  sweep_steps :
      (now : ℕ) (before after : State E → State E) (x : Session P) (s : State E)
      → s.active_session ≡ some x
      → sweep now before after s ≡ sweep_session now x (after (sweep_purge now (before s)))
  unfolding sweep
  sweep_steps now before after x s h =
      let t = after (sweep_purge now (before s)) in
      ap (λ (o : Option (Session P)). elim o [ none ↦ t | some y ↦ sweep_session now y t ]) h

  swept_active :
      (now : ℕ) (x : Session P) (s : State E)
      → (sweep_session now x s).active_session ≡ swept_session now x s.active_session
  unfolding sweep_session
  swept_active now x s = ground arith

  swept_revoked :
      (now : ℕ) (x : Session P) (s : State E)
      → (sweep_session now x s).revoked ≡ s.revoked ++ urls_of (filter (gone_by now) x.messages)
  unfolding sweep_session
  swept_revoked now x s = elim (Bool-cases (any (gone_by now) x.messages)) [
    | inl e ↦ rw e refl
    | inr e ↦ rw (e, filter_none now x.messages e) (sym (append-nil s.revoked))
  ]

  swept_db : (now : ℕ) (x : Session P) (s : State E) → (sweep_session now x s).db ≡ s.db
  unfolding sweep_session
  swept_db now x s = ground arith

  -- A sweep awaits the purge of the database, and anything can happen before and after the rows are
  -- purged. The purge takes the messages that have expired out of the database, no others, and no
  -- session. When the sweep goes on, in the state t: if a message has expired of the session that was
  -- open when the sweep began, that session is written back as it was then, without its expired
  -- messages, whatever t has open; else what t has open stays. The object URLs of those expired messages
  -- are revoked and no other, and the database is that of t. So a sweep in which nothing else happens
  -- keeps the messages that have not expired, in order, and the other fields of the session.
  pub sweep_lem :
      (now : ℕ) (k : String) (before after : State E → State E) (x : Session P) (s : State E)
      → s.active_session ≡ some x
      → let s1 = before s in
        let purged : State E = record s1 { db = (purge_expired_messages E now s1.db).0 } in
        let t = after purged in
        let s' = sweep now before after s in
        (message_at E k purged.db
          ≡ keep_if
              (not (passes (λ m. is_expired now m.expires_at) (message_at E k s1.db)))
              (message_at E k s1.db))
        × (session_at E k purged.db ≡ session_at E k s1.db)
        × (s'.active_session ≡ swept_session now x t.active_session)
        × (s'.revoked ≡ t.revoked ++ urls_of (filter (gone_by now) x.messages))
        × (message_at E k s'.db ≡ message_at E k t.db)
        × (session_at E k s'.db ≡ session_at E k t.db)
        × ((sweep now (λ q. q) (λ q. q) s).active_session
            ≡ some (record x { messages = filter (λ m. not (gone_by now m)) x.messages }))
  unfolding sweep_purge
  sweep_lem now k before after x s h =
      let e = sweep_steps now before after x s h in
      let t = after (sweep_purge now (before s)) in
      let alone = sweep_purge now s in
      let (messages, rows) = purge_expired_messages_lem E now k (before s).db in
      (
        messages,
        rows,
        ap (λ (z : State E). z.active_session) e ∙ swept_active now x t,
        ap (λ (z : State E). z.revoked) e ∙ swept_revoked now x t,
        ap (λ (z : State E). message_at E k z.db) e ∙ ap (message_at E k) (swept_db now x t),
        ap (λ (z : State E). session_at E k z.db) e ∙ ap (session_at E k) (swept_db now x t),
        ap (λ (z : State E). z.active_session) (sweep_steps now (λ q. q) (λ q. q) x s h)
            ∙ swept_active now x alone
            ∙ ap (swept_session now x) h
            ∙ swept_alone now x,
      )
