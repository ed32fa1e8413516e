-- ===== src/Wire/Sealed.antt =====
-- What the messages of a channel tell: with its key and without.
use nodetalk.Prelude.{◌≡◌, refl, String, true, false, [], ◌∷◌, ◌++◌, ◌<◌, All, Option, none, some}
use nodetalk.Prelude.Dict
use nodetalk.Wire.Binary.{Browser, without_bom, base64_to_bytes, base64_lem}
use nodetalk.Wire.{Connection, Client, new_message, send_cmd, send_to_worker, ws_send}
use nodetalk.Wire.Sending.{body, opened_with, ws_send_message, ws_edit_message, decrypt_text}

module _ {Bytes J : Type 0} where
  -- A message sent with the key of channel ch, where the encryption works, is handed to the worker, and
  -- whoever has the same key for ch reads its text again, but for a byte order mark at its start, which is
  -- left out. The elements of the random bytes and of what the encryption gives are bytes.
  pub decrypt-send :
      (b : Browser Bytes) (ch text kind compression : String) (reply_to : Option String)
      (key iv sealed : Bytes) (w : Connection) (c d : Client Bytes J)
      → Dict.lookup ch c.channel_keys ≡ some key
      → Dict.lookup ch d.channel_keys ≡ some key
      → b.encrypt key iv (b.encode text) ≡ some sealed
      → All (λ n. n < 256) (b.elements iv)
      → All (λ n. n < 256) (b.elements sealed)
      → let m = body b ch sealed iv in
        (ws_send_message b ch text kind compression reply_to iv (record c { worker = some w })
          ≡ some (
            record c {
              worker = some w;
              posted = c.posted ++ send_cmd (new_message m kind compression reply_to) ∷ [];
            },
            true,
          ))
        × (decrypt_text b ch m.ciphertext m.nonce d ≡ without_bom text)
  unfolding ws_send_message ws_send send_to_worker decrypt_text opened_with
  decrypt-send b ch text kind compression reply_to key iv sealed w c d hc hd he hi hs = (
    rw (ws_send_message, hc, he) refl,
    rw
        (
          decrypt_text,
          hd,
          opened_with,
          base64_lem b iv hi,
          base64_lem b sealed hs,
          b.decrypt-encrypt key iv (b.encode text) sealed he,
          b.decode-encode text,
        )
        refl,
  )

  -- Without the key of channel ch, a message is handed to the worker all the same, and anybody reads its
  -- text from the bytes without a key; an edit is refused and nothing of it is handed over.
  pub unsealed_without_key :
      (b : Browser Bytes) (ch text kind compression id : String) (reply_to : Option String)
      (iv : Bytes) (w : Connection) (c : Client Bytes J)
      → Dict.lookup ch c.channel_keys ≡ none
      → All (λ n. n < 256) (b.elements (b.encode text))
      → let m = body b ch (b.encode text) b.zeros in
        (ws_send_message b ch text kind compression reply_to iv (record c { worker = some w })
          ≡ some (
            record c {
              worker = some w;
              posted = c.posted ++ send_cmd (new_message m kind compression reply_to) ∷ [];
            },
            true,
          ))
        × (base64_to_bytes b m.ciphertext ≡ some (b.encode text))
        × (ws_edit_message b ch id text iv c ≡ some (c, false))
  unfolding ws_send_message ws_edit_message ws_send send_to_worker
  unsealed_without_key b ch text kind compression id reply_to iv w c h hs =
      (rw (ws_send_message, h) refl, base64_lem b (b.encode text) hs, rw (ws_edit_message, h) refl)
