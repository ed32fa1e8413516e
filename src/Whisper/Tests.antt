-- ===== src/Whisper/Tests.antt =====
-- The Whisper theorems at concrete inputs, on a small browser and a small database.
mod Toy
use nodetalk.Prelude.{
  ℕ, ◌+◌, ◌*◌, ◌≡◌, refl, Bool, true, false, not, ◌&&◌, List, [], ◌∷◌, ◌++◌, map, Option, none,
  some, arith, String, if◌then◌else◌, ◌==◌, length, filter, nat_beq, All, or_text,
}
use nodetalk.Prelude.Dict.{lookup}
use nodetalk.Channels.{Store}
use nodetalk.Whisper.Platform.{Platform, Payload, Bytes}
use nodetalk.Whisper.Crypto.{
  Secrets, derive_whisper_secrets, whisper_encrypt_payload, whisper_decrypt_payload,
  format_safety_number, first_bytes,
}
use nodetalk.Whisper.Crypto.SafetyNumber.{safety_number_lem}
use nodetalk.Whisper.Crypto.Handshake.{key_exchange, decrypt-encrypt_payload}
use nodetalk.Whisper.Table.{passes, keep_if, on_row}
use nodetalk.Whisper.Db.{
  Db, ExpiryMode, persistent, one_hour, is_expired, StoredSession, StoredMessage, save_message,
  delete_session, purge_expired_messages,
}
use nodetalk.Whisper.Db.Laws.{
  session_at, message_at, save_message_lem, delete_session_lem, purge_expired_messages_lem,
}
use nodetalk.Whisper.State.{
  State, Session, MessageItem, Status, active, Frame, whisper_init, whisper_close, urls_of,
}
use nodetalk.Whisper.Start.{initiate_whisper, on_whisper_init, is_stored}
use nodetalk.Whisper.Start.Answer.{on_whisper_accept, on_whisper_reject, AcceptRaw}
use nodetalk.Whisper.Start.Abandoned.{abandoned_invitation_keeps_key}
use nodetalk.Whisper.Start.Handshake.{IsKeyed, accept_shown, signed_in, encoded, handshake}
use nodetalk.Whisper.Send.{
  Draft, FileInput, expires_at, text_draft, voice_draft, send_start, send_encrypted, send_finish,
  send_draft, item_of,
}
use nodetalk.Whisper.Send.Overlap.{
  sending, frame_of, stored_of, open_in, send_draft_lem, overlapping_sends, send_across_burn,
}
use nodetalk.Whisper.Receive.{load_message, on_whisper_msg}
use nodetalk.Whisper.Receive.RoundTrip.{
  relayed, taken_in, stored_item, text_sent_loads, voice_sent_loads, receive-send,
}
use nodetalk.Whisper.Close.{
  burn_session, close_session, on_whisper_close, on_whisper_error, sweep, gone_by,
}
use nodetalk.Whisper.Close.Cleanup.{burn_session_lem, sweep_lem, swept_session}
use nodetalk.Whisper.Tests.Toy.{toy, toy_engine, ToyBlob, raw, made}

abbrev nonce : ToyBlob
nonce = raw 7

abbrev hello : Payload
hello = record { text = some "hello"; attachment = none }

abbrev item : MessageItem
item = record {
  id = "m1";
  session_id = "s1";
  sender_id = "bob";
  text = some "hello";
  attached = none;
  sent_at = 50;
  expires_at = some 100;
}

abbrev session : Session toy
session = record {
  session_id = "s1";
  peer_id = "bob";
  peer_username = "Bob";
  session_key = some 9;
  expiry_mode = one_hour;
  safety_number = [];
  fingerprint_hex = [];
  verified = false;
  initiated_by_me = true;
  messages = item ∷ [];
  status = active;
  status_message = none;
  created_at = 10;
}

abbrev row : StoredMessage toy
row = record {
  id = "m1";
  session_id = "s1";
  sender_id = "bob";
  ciphertext = made 9 nonce hello;
  nonce = nonce;
  sent_at = 50;
  expires_at = some 100;
}

abbrev session_row : StoredSession toy
session_row = record {
  session_id = "s1";
  peer_id = "bob";
  peer_username = "Bob";
  session_key = 9;
  expiry_mode = one_hour;
  safety_number = [];
  fingerprint_hex = [];
  verified = false;
  created_at = 10;
  last_activity = 10;
}

abbrev db : Db toy_engine
db = record { sessions = session_row ∷ []; messages = row ∷ [] }

abbrev state : State toy_engine
state = record {
  active_session = some session;
  incoming_invite = none;
  is_whisper_mode_active = true;
  whisper_peer_id = some "bob";
  is_start_modal_open = false;
  is_safety_number_modal_open = false;
  start_modal_peer = none;
  is_connecting = false;
  error_message = none;
  pending_private_keys = ("s1", 4) ∷ ("s2", 5) ∷ [];
  user = some "ann";
  db = db;
  channels = record {
    channels = [];
    active_channel = none;
    is_channels_loading = false;
    refresh_seq = 0;
  };
  sent = [];
  revoked = [];
}

key_exchange_example :
    (r : Secrets toy) × (derive_whisper_secrets toy 3 5 "s1" "ann" "bob" ≡ some r)
    × (derive_whisper_secrets toy 5 3 "s1" "bob" "ann" ≡ some r)
    × (length r.safety_number ≡ 71)
key_exchange_example = key_exchange toy 3 5 "s1" "ann" "bob"

safety_number_lem_example :
    let bytes = toy.hkdf_bytes 8 "" in
    (s : List ℕ) × (format_safety_number bytes ≡ some s)
    × (length s ≡ 71)
    × (first_bytes 24 bytes ≡ first_bytes 24 bytes)
safety_number_lem_example =
    safety_number_lem (toy.hkdf_bytes 8 "") (toy.hkdf_bytes 8 "") (toy.hkdf_bytes_range 8 "")
      (toy.hkdf_bytes_range 8 "") (omega arith) (omega arith) refl

-- Ann invites with the private key 3, and Bob accepts with the private key 5.
abbrev invited : State toy_engine
invited = initiate_whisper "s3" 3 "bob" "Bob" one_hour 20 (signed_in "ann" state)

abbrev accepted : State toy_engine
accepted = accept_shown 5 21 "failed" (
    on_whisper_init
      (record {
        session_id = "s3";
        initiator_id = "ann";
        initiator_username = none;
        pub_key = encoded toy 3;
        expiry_mode = some one_hour;
      })
      (signed_in "bob" state))

abbrev ready : State toy_engine
ready =
    on_whisper_accept
      (record {
        session_id = "s3";
        target_id = "bob";
        target_username = none;
        pub_key = encoded toy 5;
        expiry_mode = some one_hour;
      })
      22 "failed" invited

handshake_example :
    (r : Secrets toy) × (invited.sent ≡ whisper_init "s3" "bob" (encoded toy 3) one_hour ∷ [])
    × IsKeyed "s3" r accepted.active_session
    × IsKeyed "s3" r ready.active_session
    × (lookup "s3" ready.pending_private_keys ≡ none)
handshake_example =
    handshake 3 5 "s3" "ann" "bob" none none "Bob" "failed" "failed" one_hour 20 21 22 state state
      refl

abbrev answer : AcceptRaw toy
answer = record {
  session_id = "s3";
  target_id = "bob";
  target_username = none;
  pub_key = encoded toy 5;
  expiry_mode = some one_hour;
}

send_across_burn_example :
    let c = sending (text_draft "hi") 60 session 9 "ann" in
    let burnt = burn_session (open_in session "ann" state) in
    let s' = send_finish c "m2" (send_encrypted c nonce "m2" 62 burnt) in
    (send_start (text_draft "hi") 60 (open_in session "ann" state) ≡ some c)
    × (burnt.active_session ≡ none)
    × (s'.active_session
        ≡ some (record session { messages = session.messages ++ item_of c "m2" ∷ [] }))
    × (message_at toy_engine "m2" s'.db ≡ (
        if is_stored one_hour
        then some (stored_of c nonce "m2")
        else message_at toy_engine "m2" burnt.db))
send_across_burn_example =
    send_across_burn (text_draft "hi") 60 62 nonce "m2" session 9 "ann" state refl

abbrev blob_url : String → String → Option String
blob_url content mime = some "blob:2"

abbrev recording : FileInput
recording = record {
  name = "";
  mime = "audio/ogg";
  size = 3;
  data_base64 = "QUJD";
  blob_url = "blob:1";
}

receive-send_example :
    let c = sending (text_draft "hi") 60 session 9 "ann" in
    let d = taken_in c nonce 61 "m9" session in
    let s' = on_whisper_msg blob_url (relayed c nonce 61) "m9" 62 (open_in session "bob" state) in
    (s'.active_session ≡ some (record session { messages = session.messages ++ d.item ∷ [] }))
    × (d.item.text ≡ some "hi")
    × (d.item.expires_at ≡ expires_at one_hour 60)
    × (message_at toy_engine "m9" s'.db ≡ (
        if is_stored one_hour && "m9" == "m9"
        then some (stored_item d)
        else message_at toy_engine "m9" db))
receive-send_example =
    receive-send blob_url "hi" 60 61 62 session session 9 "ann" "bob" nonce "m9" "m9" state refl
      refl refl

burn_session_lem_example :
    let s' = burn_session state in
    (s'.active_session ≡ none)
    × (s'.sent ≡ whisper_close "s1" "burned" ∷ [])
    × (lookup "s1" s'.pending_private_keys ≡ none)
    × (s'.revoked ≡ [])
    × (session_at toy_engine "s1" s'.db
        ≡ (if "s1" == "s1" then none else session_at toy_engine "s1" db))
    × (message_at toy_engine "s1" s'.db
        ≡ keep_if
            (not (
              passes
                (λ (m : StoredMessage toy). m.session_id == "s1")
                (message_at toy_engine "s1" db)))
            (message_at toy_engine "s1" db))
burn_session_lem_example = burn_session_lem session "s1" state refl

-- The session is burnt while the sweep awaits the purge.
sweep_lem_example :
    let purged : State toy_engine = record state {
      db = (purge_expired_messages toy_engine 200 db).0;
    } in
    let t = burn_session purged in
    let s' = sweep 200 (λ s. s) burn_session state in
    (message_at toy_engine "m1" purged.db
      ≡ keep_if
          (not (
            passes
              (λ (m : StoredMessage toy). is_expired 200 m.expires_at)
              (message_at toy_engine "m1" db)))
          (message_at toy_engine "m1" db))
    × (session_at toy_engine "m1" purged.db ≡ session_at toy_engine "m1" db)
    × (s'.active_session ≡ swept_session 200 session t.active_session)
    × (s'.revoked ≡ t.revoked ++ urls_of (filter (gone_by 200) session.messages))
    × (message_at toy_engine "m1" s'.db ≡ message_at toy_engine "m1" t.db)
    × (session_at toy_engine "m1" s'.db ≡ session_at toy_engine "m1" t.db)
    × ((sweep 200 (λ s. s) (λ s. s) state).active_session
        ≡ some (record session { messages = filter (λ m. not (gone_by 200 m)) session.messages }))
sweep_lem_example = sweep_lem 200 "m1" (λ s. s) burn_session session state refl
