-- ===== src/Session/SignOut.antt =====
-- What signing out leaves behind.
use nodetalk.Prelude.{◌≡◌, refl, String, true, false, [], none, arith, if◌then◌else◌}
use nodetalk.Prelude.Dict
use nodetalk.Channels.{reset_channels}
use nodetalk.Wire.Binary.{Browser}
use nodetalk.Wire.{Outgoing, ws_disconnect, ws_send}
use nodetalk.Wire.Sending.{decrypt_text}
use nodetalk.Session.{
  Account, logged_out, deleted_account, init_auth_failed, AuthUser, close_connection,
  clear_desktop_token, forget_user,
}

module _ {Bytes J R : Type 0} where
  -- Nobody is signed in, and nothing of the account is shown, sent or decrypted.
  abbrev pub IsSignedOut : Browser Bytes → Outgoing → String → Account Bytes J R → Type 0
  IsSignedOut b m ch s =
      (s.user ≡ none)
      × (s.relationships ≡ [])
      × (s.incoming_requests ≡ [])
      × ((ws_send m s.client).1 ≡ false)
      × (decrypt_text b ch "" "" s.client ≡ "[encrypted]")

  abbrev pub ListsNothing : Account Bytes J R → Type 0
  ListsNothing s = (s.channels.channels ≡ []) × (s.channels.active_channel ≡ none)

  -- Signing out leaves nobody signed in: no relationships, no keys, no connection, no channels, and in
  -- the desktop client no token; deleting the account leaves the same but keeps the token that the
  -- desktop client stored; and a session that the server refuses at the start ends too, with whatever
  -- channels were listed.
  pub signed_out :
      (b : Browser Bytes) (m : Outgoing) (ch : String) (saved : AuthUser) (s : Account Bytes J R)
      → let out = logged_out s in
        let deleted = deleted_account s in
        (IsSignedOut b m ch out
          × ListsNothing out
          × ((if s.place.is_wails then out.place.stored_token else none) ≡ none))
        × (IsSignedOut b m ch deleted
            × ListsNothing deleted
            × (deleted.place.stored_token ≡ s.place.stored_token))
        × IsSignedOut b m ch (init_auth_failed saved true s)
  unfolding logged_out deleted_account init_auth_failed close_connection clear_desktop_token
      forget_user ws_disconnect ws_send decrypt_text Dict.lookup reset_channels
  signed_out b m ch saved s = (
    ((refl, refl, refl, refl, refl), (refl, refl), ground arith),
    ((refl, refl, refl, refl, refl), (refl, refl), refl),
    (refl, refl, refl, refl, refl),
  )
