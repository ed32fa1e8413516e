-- ===== src/Wire/Session.antt =====
-- The connection of a page: what disconnecting leaves, and what connecting again does.
use nodetalk.Prelude.{ℕ, ◌≡◌, refl, ap, String, true, false, List, [], ◌∷◌, ◌++◌, map, Option, none}
use nodetalk.Prelude.Dict
use nodetalk.Wire.Binary.{Browser}
use nodetalk.Wire.{
  Place, ws_open, Event, opened, Client, Outgoing, disconnect_cmd, listeners_of, emit,
  handle_worker_message, deliver, send_to_worker, set_up_worker, ws_connect, ws_disconnect, ws_send,
}
use nodetalk.Wire.Sending.{decrypt_text}

module _ {Bytes J : Type 0} where
  -- Messages one after the other.
  unfoldable pub send_all : List Outgoing → Client Bytes J → Client Bytes J
  unfolding ws_send
  send_all [] c = c
  send_all (m ∷ messages) c = send_all messages (ws_send m c).0

  send_all_without_worker :
      (messages : List Outgoing) (c : Client Bytes J)
      → send_all messages (record c { worker = none }) ≡ record c { worker = none }
  unfolding send_all ws_send
  send_all_without_worker [] c = refl
  send_all_without_worker (m ∷ messages) c = send_all_without_worker messages c

  -- After disconnecting, no message is handed over any more until the page connects again, and no text
  -- of any channel can be read, since all keys are gone.
  pub disconnected_is_mute :
      (messages : List Outgoing) (m : Outgoing) (b : Browser Bytes) (ch ciphertext nonce : String)
      (c : Client Bytes J)
      → let d = send_all messages (ws_disconnect c) in
        (d ≡ ws_disconnect c)
        × ((ws_send m d).1 ≡ false)
        × (decrypt_text b ch ciphertext nonce d ≡ "[encrypted]")
  unfolding ws_disconnect ws_send decrypt_text Dict.lookup
  disconnected_is_mute messages m b ch ciphertext nonce c =
      let d = record (send_to_worker disconnect_cmd c) { channel_keys = [] } in
      let e = send_all_without_worker messages d in
      (
        e,
        ap (λ (x : Client Bytes J). (ws_send m x).1) e,
        ap (λ (x : Client Bytes J). decrypt_text b ch ciphertext nonce x) e,
      )

  -- Where the browser shares workers, a page that connects, disconnects and connects again has two ports
  -- to the worker, so that each message of the worker calls every listener twice.
  pub reconnect_delivers_twice :
      (p : Place) (b : Browser Bytes) (first second : Option String) (c : Client Bytes J)
      → let place = record p { is_wails = false; has_shared_worker = true } in
        let fresh = record c { worker = none; ports = 0 } in
        let d = ws_connect place second (ws_disconnect (ws_connect place first fresh)) in
        let calls = map {B = ℕ × Event J} (λ fn. (fn, opened)) (listeners_of "open" c.listeners) in
        (d.ports ≡ 2) × ((deliver b d.ports ws_open d).called ≡ c.called ++ calls ++ calls)
  unfolding ws_connect ws_disconnect set_up_worker send_to_worker deliver handle_worker_message emit
  reconnect_delivers_twice p b first second c = (refl, refl)
