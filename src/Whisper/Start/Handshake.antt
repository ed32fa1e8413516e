-- ===== src/Whisper/Start/Handshake.antt =====
-- A session from the invitation to the key on both sides. The server passes the frames on with the
-- sender's id and name added; each side's other fields are arbitrary.
use Prim.Native.String
use nodetalk.Prelude.{
  ℕ, String, ◌≡◌, refl, ap, ◌∙◌, true, false, [], ◌∷◌, ◌++◌, Option, none, some, arith, ◌==◌,
  eq_refl, or_text?, or_default,
}
use nodetalk.Prelude.Dict.{lookup, insert, erase, lookup-insert, lookup-erase}
use nodetalk.Whisper.Platform.{Platform}
use nodetalk.Whisper.Crypto.{Secrets, derive_whisper_secrets}
use nodetalk.Whisper.Crypto.Handshake.{key_exchange}
use nodetalk.Whisper.Db.{ExpiryMode, persistent, Engine}
use nodetalk.Whisper.State.{State, Session, Invite, whisper_init, active, send_frame}
use nodetalk.Whisper.Start.{
  InitRaw, derive_from, initiate_whisper, on_whisper_init, accept_invite, initiate_start,
  initiate_keypair, initiate_send, accept_finish,
}
use nodetalk.Whisper.Start.Answer.{
  AcceptRaw, on_whisper_accept, on_accept_start, on_accept_save, on_accept_finish,
}

abbrev pub encoded : (P : Platform) → P.PrivateKey → P.Base64
encoded P key = P.btoa (P.export_key (P.public_of key))

derive_from_lem :
    (P : Platform) (key other : P.PrivateKey) (id me peer : String)
    → derive_from P key (encoded P other) id me peer
      ≡ derive_whisper_secrets P key (P.public_of other) id me peer
unfolding derive_from
derive_from_lem P key other id me peer =
    rw (P.atob-btoa (P.export_key (P.public_of other)), P.import-export (P.public_of other))

-- The session is open, active and keyed with these secrets.
abbrev pub IsKeyed : {P : Platform} → String → Secrets P → Option (Session P) → Type 0
IsKeyed id r none = ⊥
IsKeyed id r (some x) =
    (x.session_id ≡ id)
    × (x.session_key ≡ some r.session_key)
    × (x.safety_number ≡ r.safety_number)
    × (x.status ≡ active)

abbrev invite_of : {P : Platform} → InitRaw P → Invite P
invite_of raw = record {
  session_id = raw.session_id;
  initiator_id = raw.initiator_id;
  initiator_username = or_text? raw.initiator_username "Friend";
  pub_key = raw.pub_key;
  expiry_mode = or_default raw.expiry_mode persistent;
}

-- The placeholder that `initiateWhisper` opens.
abbrev pub waiting : {P : Platform} → String → String → String → ExpiryMode → ℕ → Session P
waiting id peer name mode t = record {
  session_id = id;
  peer_id = peer;
  peer_username = name;
  session_key = none;
  expiry_mode = mode;
  safety_number = [];
  fingerprint_hex = [];
  verified = false;
  initiated_by_me = true;
  messages = [];
  status = active;
  status_message = some (String.◌++◌ "Waiting for " (String.◌++◌ name " to accept..."));
  created_at = t;
}

module _ {P : Platform} {E : Engine P} where
  -- Any state in which this user is signed in.
  abbrev pub signed_in : String → State E → State E
  signed_in me s = record s { user = some me }

  -- The invitation on display is accepted.
  abbrev pub accept_shown : P.PrivateKey → ℕ → String → State E → State E
  accept_shown key t err s = elim s.incoming_invite [
    | none ↦ s
    | some invite ↦ accept_invite key invite t err s
  ]

  accept_invite-IsKeyed :
      (key : P.PrivateKey) (invite : Invite P) (t : ℕ) (err me : String) (r : Secrets P)
      (s : State E)
      → derive_from P key invite.pub_key invite.session_id me invite.initiator_id ≡ some r
      → IsKeyed invite.session_id r (accept_invite key invite t err (signed_in me s)).active_session
  unfolding accept_invite accept_finish
  accept_invite-IsKeyed key invite t err me r s hd = rw (accept_invite, hd) (refl, refl, refl, refl)

  accepted-IsKeyed :
      (key : P.PrivateKey) (raw : InitRaw P) (t : ℕ) (err me : String) (r : Secrets P) (s : State E)
      → (raw.initiator_id == me) ≡ false
      → derive_from P key raw.pub_key raw.session_id me raw.initiator_id ≡ some r
      → IsKeyed raw.session_id r
          (accept_shown key t err (on_whisper_init raw (signed_in me s))).active_session
  unfolding on_whisper_init
  accepted-IsKeyed key raw t err me r s hn hd = rw hn (
      accept_invite-IsKeyed key (invite_of raw) t err me r
        (record s { incoming_invite = some (invite_of raw) }) hd)

  saved_keys :
      (raw : AcceptRaw P) (x : Session P) (r : Secrets P) (t : ℕ) (s : State E)
      → (on_accept_save raw x r t s).pending_private_keys ≡ s.pending_private_keys
  unfolding on_accept_save
  saved_keys raw x r t s = ground arith

  on_whisper_accept-IsKeyed :
      (key : P.PrivateKey) (raw : AcceptRaw P) (t : ℕ) (err me : String) (r : Secrets P)
      (x : Session P) (s : State E)
      → (x.session_id == raw.session_id) ≡ true
      → lookup raw.session_id s.pending_private_keys ≡ some key
      → derive_from P key raw.pub_key raw.session_id me raw.target_id ≡ some r
      → let s' =
          on_whisper_accept raw t err (record s { user = some me; active_session = some x }) in
        IsKeyed x.session_id r s'.active_session
        × (lookup raw.session_id s'.pending_private_keys
            ≡ lookup raw.session_id (erase raw.session_id s.pending_private_keys))
  unfolding on_whisper_accept on_accept_start on_accept_finish
  on_whisper_accept-IsKeyed key raw t err me r x s he hl hd =
      rw (he, hl, on_whisper_accept, hd)
        (
          (refl, refl, refl, refl),
          ap (lookup raw.session_id) (
              saved_keys raw x r t (record s {
                user = some me;
                active_session = some x;
                pending_private_keys = erase raw.session_id s.pending_private_keys;
              })),
        )

  initiated-IsKeyed :
      (key : P.PrivateKey) (peer name : String) (mode : ExpiryMode) (t : ℕ) (raw : AcceptRaw P)
      (t' : ℕ) (err me : String) (r : Secrets P) (s : State E)
      → derive_from P key raw.pub_key raw.session_id me raw.target_id ≡ some r
      → let s' =
          on_whisper_accept raw t' err
            (initiate_whisper raw.session_id key peer name mode t (signed_in me s)) in
        IsKeyed raw.session_id r s'.active_session
        × (lookup raw.session_id s'.pending_private_keys ≡ none)
  unfolding initiate_whisper initiate_send initiate_keypair initiate_start send_frame
  initiated-IsKeyed key peer name mode t raw t' err me r s hd =
      let id = raw.session_id in
      let inserted = lookup-insert id id key s.pending_private_keys in
      let same = eq_refl id in
      let e : lookup id (insert id key s.pending_private_keys) ≡ some key = ground arith in
      let gone = lookup-erase id id (insert id key s.pending_private_keys) in
      let (k, p) =
        on_whisper_accept-IsKeyed key raw t' err me r (waiting id peer name mode t)
          (initiate_whisper id key peer name mode t (signed_in me s)) same e hd in
      (k, p ∙ ground arith)

-- The handshake: `a` invites and `b` accepts the invitation that is then on display, each in any
-- state. Both end with the session of this id open, active and with the same session key and safety
-- number, and the inviter keeps no pending private key for it. The two users differ, and the frames
-- reach the other side with the sender's id and the encoded public key of the sender in them.
pub handshake :
    {P : Platform} {E F : Engine P} (a b : P.PrivateKey) (id user_a user_b : String)
    (name_a name_b : Option String) (shown_b err_a err_b : String) (mode : ExpiryMode) (t u v : ℕ)
    (s : State E) (s' : State F)
    → (user_a == user_b) ≡ false
    → let invited = initiate_whisper id a user_b shown_b mode t (signed_in user_a s) in
      let accepted = accept_shown b u err_b (
        on_whisper_init
          (record {
            session_id = id;
            initiator_id = user_a;
            initiator_username = name_a;
            pub_key = encoded P a;
            expiry_mode = some mode;
          })
          (signed_in user_b s')) in
      let ready =
        on_whisper_accept
          (record {
            session_id = id;
            target_id = user_b;
            target_username = name_b;
            pub_key = encoded P b;
            expiry_mode = some mode;
          })
          v
          err_a
          invited in
      (r : Secrets P) × (invited.sent ≡ s.sent ++ whisper_init id user_b (encoded P a) mode ∷ [])
      × IsKeyed id r accepted.active_session
      × IsKeyed id r ready.active_session
      × (lookup id ready.pending_private_keys ≡ none)
unfolding initiate_whisper initiate_send initiate_keypair initiate_start send_frame
handshake {P = P} a b id user_a user_b name_a name_b shown_b err_a err_b mode t u v s s' h =
    let (r, ea, eb, l) = key_exchange P a b id user_a user_b in
    let da = derive_from_lem P a b id user_a user_b ∙ ea in
    let db = derive_from_lem P b a id user_b user_a ∙ eb in
    let (k, p) =
      initiated-IsKeyed a user_b shown_b mode t
        (record {
          session_id = id;
          target_id = user_b;
          target_username = name_b;
          pub_key = encoded P b;
          expiry_mode = some mode;
        })
        v err_a user_a r s da in
    (
      r,
      refl,
      accepted-IsKeyed b
          (record {
            session_id = id;
            initiator_id = user_a;
            initiator_username = name_a;
            pub_key = encoded P a;
            expiry_mode = some mode;
          })
          u err_b user_b r s' h db,
      k,
      p,
    )
