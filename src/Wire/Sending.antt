-- ===== src/Wire/Sending.antt =====
-- client-web/src/ws.ts: the messages sent with the key of a channel, and their text.
use nodetalk.Prelude.{String, Bool, false, Option, none, some}
use nodetalk.Prelude.Dict
use nodetalk.Wire.Binary.{Browser, bytes_to_base64, base64_to_bytes}
use nodetalk.Wire.{Body, Client, new_message, message_edit, message_delete, ws_send}

abbrev pub body : {Bytes : Type 0} → Browser Bytes → String → Bytes → Bytes → Body
body b channel_id sealed iv = record {
  channel_id = channel_id;
  ciphertext = bytes_to_base64 b sealed;
  nonce = bytes_to_base64 b iv;
}

-- What the `try` decrypts, and `none` where something in it throws.
unfoldable pub opened_with :
    {Bytes : Type 0} → Browser Bytes → Bytes → String → String → Option Bytes
opened_with b key ciphertext nonce = elim (base64_to_bytes b nonce) [
  | none ↦ none
  | some iv ↦ elim (base64_to_bytes b ciphertext) [
    | none ↦ none
    | some sealed ↦ b.decrypt key iv sealed
  ]
]

module _ {Bytes J : Type 0} where
  -- With these random bytes. `none`: the encryption throws.
  unfoldable pub ws_send_message :
      Browser Bytes
      → String
      → String
      → String
      → String
      → Option String
      → Bytes
      → Client Bytes J
      → Option (Client Bytes J × Bool)
  unfolding ws_send
  ws_send_message b channel_id text kind compression reply_to iv c =
      elim (Dict.lookup channel_id c.channel_keys) [
        | none ↦ some (
            ws_send
              (new_message (body b channel_id (b.encode text) b.zeros) kind compression reply_to) c)
        | some key ↦ elim (b.encrypt key iv (b.encode text)) [
          | none ↦ none
          | some sealed ↦
              some (ws_send (new_message (body b channel_id sealed iv) kind compression reply_to) c)
        ]
      ]

  unfoldable pub ws_edit_message :
      Browser Bytes
      → String
      → String
      → String
      → Bytes
      → Client Bytes J
      → Option (Client Bytes J × Bool)
  unfolding ws_send
  ws_edit_message b channel_id message_id text iv c = elim (Dict.lookup channel_id c.channel_keys) [
    | none ↦ some (c, false)
    | some key ↦ elim (b.encrypt key iv (b.encode text)) [
      | none ↦ none
      | some sealed ↦ some (ws_send (message_edit message_id (body b channel_id sealed iv)) c)
    ]
  ]

  unfoldable pub ws_delete_message : String → String → Client Bytes J → Client Bytes J × Bool
  unfolding ws_send
  ws_delete_message channel_id message_id c = ws_send (message_delete channel_id message_id) c

  unfoldable pub decrypt_text : Browser Bytes → String → String → String → Client Bytes J → String
  unfolding opened_with
  decrypt_text b channel_id ciphertext nonce c = elim (Dict.lookup channel_id c.channel_keys) [
    | none ↦ "[encrypted]"
    | some key ↦ elim (opened_with b key ciphertext nonce) [
      | none ↦ "[decryption failed]"
      | some bytes ↦ b.decode bytes
    ]
  ]
