-- ===== src/Whisper/Start/Abandoned.antt =====
-- An invitation that the user drops by sending another one.
use nodetalk.Prelude.{ℕ, String, ◌≡◌, refl, ◌∙◌, false, none, some, arith, ◌==◌, eq_refl}
use nodetalk.Prelude.Dict.{lookup, insert, lookup-insert}
use nodetalk.Whisper.Platform.{Platform}
use nodetalk.Whisper.Db.{ExpiryMode, Engine}
use nodetalk.Whisper.State.{State, Session, send_frame}
use nodetalk.Whisper.Start.{initiate_whisper, initiate_start, initiate_keypair, initiate_send}
use nodetalk.Whisper.Start.Answer.{AcceptRaw, on_whisper_accept, on_accept_start}
use nodetalk.Whisper.Start.Handshake.{signed_in, waiting}

module _ {P : Platform} {E : Engine P} where
  other_session_answered :
      (raw : AcceptRaw P) (x : Session P) (u : ℕ) (err me : String) (s : State E)
      → (x.session_id == raw.session_id) ≡ false
      → on_accept_start raw (record s { user = some me; active_session = some x }) ≡ none
  unfolding on_accept_start
  other_session_answered raw x u err me s h = rw h refl

  ignored :
      (raw : AcceptRaw P) (u : ℕ) (err : String) (s : State E)
      → on_accept_start raw s ≡ none
      → on_whisper_accept raw u err s ≡ s
  unfolding on_whisper_accept
  ignored raw u err s h = rw (on_whisper_accept, h) refl

  -- A second invitation while the first waits for its answer: the answer to the first, when it comes,
  -- changes nothing, and the private key of the first stays among the pending ones.
  pub abandoned_invitation_keeps_key :
      (key key' : P.PrivateKey) (id' peer peer' name name' err me : String)
      (mode mode' : ExpiryMode) (t t' u : ℕ) (raw : AcceptRaw P) (s : State E)
      → (id' == raw.session_id) ≡ false
      → let first = initiate_whisper raw.session_id key peer name mode t (signed_in me s) in
        let second = initiate_whisper id' key' peer' name' mode' t' first in
        (on_whisper_accept raw u err second ≡ second)
        × (lookup raw.session_id second.pending_private_keys ≡ some key)
  unfolding initiate_whisper initiate_send initiate_keypair initiate_start send_frame
  abandoned_invitation_keeps_key key key' id' peer peer' name name' err me mode mode' t t' u raw s
        h =
      let id = raw.session_id in
      let first : State E = initiate_whisper id key peer name mode t (signed_in me s) in
      let second : State E = initiate_whisper id' key' peer' name' mode' t' first in
      let keys = insert id key s.pending_private_keys in
      let inserted = lookup-insert id id key s.pending_private_keys in
      (
        ignored raw u err second
            (other_session_answered raw (waiting id' peer' name' mode' t') u err me second h),
        lookup-insert id' id key' keys ∙ ground (arith, eq_refl id, inserted),
      )
