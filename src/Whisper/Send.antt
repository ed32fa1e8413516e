-- ===== src/Whisper/Send.antt =====
-- client-web/src/store/whisperStore.ts: `sendMessage`, `sendFile`, `sendVoiceMessage` and
-- `sendVideoMessage`. Each is the same action on another draft; it is cut at its `await`s: the guards
-- read the session once, and the last step writes that session back with the message added.
pub mod Overlap
use nodetalk.Prelude.{
  ℕ, ◌+◌, ◌*◌, String, Bool, true, false, List, [], ◌∷◌, ◌++◌, Option, none, some, or_text,
  if◌then◌else◌,
}
use nodetalk.Whisper.Platform.{Platform, FileKind, voice, video, Attachment, Payload}
use nodetalk.Whisper.Crypto.{whisper_encrypt_payload, ◌>>=◌}
use nodetalk.Whisper.Db.{
  ExpiryMode, five_minutes, one_hour, one_day, Engine, StoredMessage, save_message,
}
use nodetalk.Whisper.State.{State, Session, FileMeta, MessageItem, Frame, whisper_msg, send_frame}
use nodetalk.Whisper.Start.{is_stored}

unfoldable pub expires_at : ExpiryMode → ℕ → Option ℕ
expires_at ExpiryMode.five_minutes now = some (now + 5 * 60 * 1000)
expires_at ExpiryMode.one_hour now = some (now + 60 * 60 * 1000)
expires_at ExpiryMode.one_day now = some (now + 24 * 60 * 60 * 1000)
expires_at _ now = none

-- The fields of a `File` that are read, its content in base64, and its new object URL.
pub record FileInput : Type 0 where
  pub name : String
  pub mime : String
  pub size : ℕ
  pub data_base64 : String
  pub blob_url : String

-- What is encrypted, and what is shown.
pub record Draft : Type 0 where
  pub payload : Payload
  pub text : Option String
  pub attached : Option FileMeta

-- `{ ...attachment, blobUrl }`
abbrev shown : Attachment → String → FileMeta
shown a url = record {
  name = a.name;
  mime = a.mime;
  size = a.size;
  data_base64 = a.data_base64;
  blob_url = some url;
  kind = a.kind;
  duration = a.duration;
  waveform = a.waveform;
}

abbrev file_draft : Attachment → String → Draft
file_draft a url = record {
  payload = record { text = none; attachment = some a };
  text = none;
  attached = some (shown a url);
}

unfoldable pub text_draft : String → Draft
text_draft text = record {
  payload = record { text = some text; attachment = none };
  text = some text;
  attached = none;
}

unfoldable pub plain_draft : FileInput → Draft
plain_draft f =
    file_draft
      (record {
        name = f.name;
        mime = or_text f.mime "application/octet-stream";
        size = f.size;
        data_base64 = f.data_base64;
        kind = none;
        duration = none;
        waveform = none;
      })
      f.blob_url

unfoldable pub voice_draft : FileInput → Option ℕ → Option (List ℕ) → Draft
voice_draft f duration waveform =
    file_draft
      (record {
        name = or_text f.name "voice-message.ogg";
        mime = or_text f.mime "audio/ogg";
        size = f.size;
        data_base64 = f.data_base64;
        kind = some voice;
        duration = duration;
        waveform = waveform;
      })
      f.blob_url

unfoldable pub video_draft : FileInput → Option ℕ → Draft
video_draft f duration =
    file_draft
      (record {
        name = or_text f.name "video-message.webm";
        mime = or_text f.mime "video/webm";
        size = f.size;
        data_base64 = f.data_base64;
        kind = some video;
        duration = duration;
        waveform = none;
      })
      f.blob_url

-- What one call keeps across its `await`s.
pub record Sending (P : Platform) : Type 0 where
  pub session : Session P
  pub key : P.Key
  pub me : String
  pub now : ℕ
  pub expires : Option ℕ
  pub draft : Draft

abbrev pub item_of : {P : Platform} → Sending P → String → MessageItem
item_of c id = record {
  id = id;
  session_id = c.session.session_id;
  sender_id = c.me;
  text = c.draft.text;
  attached = c.draft.attached;
  sent_at = c.now;
  expires_at = c.expires;
}

module _ {P : Platform} {E : Engine P} where
  -- `none`: the action returns at once.
  pub send_start : Draft → ℕ → State E → Option (Sending P)
  unfolding expires_at
  send_start draft now s = do
    session ← s.active_session
    key ← session.session_key
    me ← s.user
    some (record {
      session = session;
      key = key;
      me = me;
      now = now;
      expires = expires_at session.expiry_mode now;
      draft = draft;
    })

  -- After the encryption: the frame goes out and the message is stored, unless the mode is
  -- session-only. `saved_at` is the time that `saveMessage` reads.
  pub send_encrypted : Sending P → P.Blob → String → ℕ → State E → State E
  send_encrypted c nonce id saved_at s =
      let ciphertext = whisper_encrypt_payload P c.key nonce c.draft.payload in
      let s1 =
        send_frame (whisper_msg c.session.session_id (P.btoa ciphertext) (P.btoa nonce) c.expires)
          s in
      if is_stored c.session.expiry_mode
      then record s1 {
        db =
            save_message E saved_at
              (record {
                id = id;
                session_id = c.session.session_id;
                sender_id = c.me;
                ciphertext = ciphertext;
                nonce = nonce;
                sent_at = c.now;
                expires_at = c.expires;
              })
              s1.db;
      }
      else s1

  pub send_finish : Sending P → String → State E → State E
  send_finish c id s = record s {
    active_session = some (record c.session { messages = c.session.messages ++ item_of c id ∷ [] });
  }

  -- The whole action, nothing coming between.
  pub send_draft : Draft → ℕ → P.Blob → String → State E → State E
  unfolding send_start send_encrypted send_finish
  send_draft draft now nonce id s = elim (send_start draft now s) [
    | none ↦ s
    | some c ↦ send_finish c id (send_encrypted c nonce id now s)
  ]
