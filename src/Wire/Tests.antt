-- ===== src/Wire/Tests.antt =====
-- The theorems on the socket's events and messages at concrete inputs, with a cipher and texts that
-- leave everything as it is.
use nodetalk.Prelude.{
  ℕ, ◌≡◌, ◌≤◌, max, refl, ap, sym, arith, true, false, List, [], ◌∷◌, ◌++◌, map, none, some, String,
}
use nodetalk.Prelude.Dict
use nodetalk.Wire.Binary.{Browser, from_code_point, from_code_point-code, code_points, without_bom}
use Prim.Native.String.{[] as empty, ◌∷◌ as ◌∷ˢ◌}
use nodetalk.Wire.{Place, Client, new_message, send_cmd, shared, opened, listeners_of, emit}
use nodetalk.Wire.Sending.{body, ws_send_message, decrypt_text}
use nodetalk.Wire.Listeners.{
  listens, unsubscribes, Change, change_all, is_among, replay, listens_last, count, emit_refines,
}
use nodetalk.Wire.Sealed.{decrypt-send}

read : List ℕ → String
read [] = ""
read (n ∷ ns) = from_code_point n ∷ˢ read ns

read-code_points : (text : String) → read (code_points text) ≡ text
unfolding code_points read
read-code_points empty = refl
read-code_points (c ∷ˢ text) =
    rw (from_code_point-code c) (ap (λ t. c ∷ˢ t) (read-code_points text))

-- A cipher that leaves everything as it is, and texts as their code points.
abbrev browser : Browser (List ℕ)
browser = record {
  zeros = [];
  encrypt = λ key iv bytes. some bytes;
  decrypt = λ key iv bytes. some bytes;
  encode = code_points;
  decode = λ bytes. without_bom (read bytes);
  elements = λ bytes. bytes;
  from_elements = λ bytes. bytes;
  btoa = λ text. text;
  atob = λ text. some text;
  decrypt-encrypt = λ key iv bytes sealed e. sym e;
  decode-encode = λ text. ap without_bom (read-code_points text);
  from_elements-elements = λ bytes. refl;
  atob-btoa = λ text h. refl;
}

abbrev client : Client (List ℕ) String
client = record {
  listeners = ("open", 1 ∷ 2 ∷ []) ∷ [];
  worker = some shared;
  ports = 1;
  unload_listener_registered = true;
  channel_keys = ("c", 7 ∷ []) ∷ [];
  posted = [];
  called = [];
}

abbrev place : Place
place = record {
  is_wails = false;
  has_shared_worker = true;
  is_https = true;
  host = "chat.example";
  stored_token = none;
}

abbrev changes : List Change
changes = listens "open" 3 ∷ unsubscribes "open" 1 ∷ listens "close" 4 ∷ []

emit_refines_example :
    let before : String → List ℕ = λ e. listeners_of e client.listeners in
    let after = replay changes before "open" in
    ((emit "open" opened (record client { listeners = change_all changes client.listeners })).called
      ≡ [] ++ map (λ fn. (fn, opened)) after)
    × (is_among 1 after ≡ listens_last "open" 1 changes (is_among 1 (before "open")))
    × (count 1 after ≤ max 1 (count 1 (before "open")))
emit_refines_example = emit_refines changes "open" 1 opened client

decrypt-send_example :
    let m = body browser "c" (104 ∷ 105 ∷ []) (1 ∷ []) in
    (ws_send_message browser "c" "hi" "text" "none" none
        (1 ∷ [])
        (record client { worker = some shared })
      ≡ some (
        record client {
          worker = some shared;
          posted = [] ++ send_cmd (new_message m "text" "none" none) ∷ [];
        },
        true,
      ))
    × (decrypt_text browser "c" m.ciphertext m.nonce client ≡ without_bom "hi")
unfolding Dict.lookup code_points
decrypt-send_example =
    decrypt-send browser "c" "hi" "text" "none" none (7 ∷ []) (1 ∷ []) (104 ∷ 105 ∷ []) shared
      client client refl refl refl (omega arith, tt) (omega arith, (omega arith, tt))
