-- ===== src/Whisper/Tests/Toy.antt =====
-- A small browser and a small database that keep the laws of the interfaces, for the examples.
use nodetalk.Prelude.{
  ℕ, zero, suc, ◌+◌, ◌<◌, String, ◌≡◌, refl, Bool, false, not, List, [], ◌∷◌, map, Option, none,
  some, arith, ◌==◌, eq_iff, if◌then◌else◌, nat_beq, All,
}
use nodetalk.Prelude.IdSet.{has}
use nodetalk.Whisper.Platform.{Platform, Payload, an_object}
use nodetalk.Whisper.Table.{Table, passes, keep_if, on_row}
use nodetalk.Whisper.Db.{Engine, session_key_of, message_key_of}

-- A nonce, the bytes of a public key, or a ciphertext, which says what it was made from.
pub data ToyBlob : Type 0 where
  raw : ℕ → ToyBlob
  made : ℕ → ToyBlob → Payload → ToyBlob

abbrev pub blob_number : ToyBlob → Option ℕ
blob_number (raw n) = some n
blob_number (made k b p) = none

abbrev pub unmake : ℕ → ToyBlob → ToyBlob → Option Payload
unmake k nonce (raw n) = none
unmake k nonce (made j b p) = if nat_beq k j then some p else none

pub unmake-made : (k : ℕ) (nonce : ToyBlob) (p : Payload) → unmake k nonce (made k nonce p) ≡ some p
unmake-made k nonce p = ground arith

abbrev pub zeros : ℕ → List ℕ
zeros zero = []
zeros (suc n) = 0 ∷ zeros n

pub zeros_small : (n : ℕ) → All (λ b. b < 256) (zeros n)
zeros_small zero = tt
zeros_small (suc n) = (omega arith, zeros_small n)

abbrev pub toy : Platform
toy = record {
  PrivateKey = ℕ;
  PublicKey = ℕ;
  Secret = ℕ;
  Key = ℕ;
  Blob = ToyBlob;
  Text = Payload;
  Base64 = ToyBlob;
  string_of = λ t. "";
  public_of = λ k. k;
  ecdh = λ a b. a + b;
  export_key = raw;
  import_key = blob_number;
  hkdf_key = λ s info. s;
  hkdf_bytes = λ s info. zeros 32;
  encrypt = made;
  decrypt = unmake;
  stringify = λ p. p;
  parse = an_object;
  btoa = λ b. b;
  atob = some;
  ecdh_comm = λ a b. omega arith;
  import-export = λ k. refl;
  hkdf_bytes_length = λ s info. refl;
  hkdf_bytes_range = λ s info. zeros_small 32;
  decrypt-encrypt = unmake-made;
  parse-stringify = λ p h. refl;
  atob-btoa = λ b. refl;
}

module _ {Row : Type 0} (key : Row → String) where
  abbrev pub get_row : String → List Row → Option Row
  get_row k [] = none
  get_row k (r ∷ t) = if key r == k then some r else get_row k t

  abbrev pub drop_key : String → List Row → List Row
  drop_key k [] = []
  drop_key k (r ∷ t) = if key r == k then drop_key k t else r ∷ drop_key k t

  abbrev pub update_rows : String → (Row → Row) → List Row → List Row
  update_rows j f [] = []
  update_rows j f (r ∷ t) = (if key r == j then f r else r) ∷ update_rows j f t

  -- Of the rows with one key, the first counts.
  abbrev pub select_rows : (Row → Bool) → List Row → List Row
  select_rows p [] = []
  select_rows p (r ∷ t) =
      if p r then r ∷ drop_key (key r) (select_rows p t) else drop_key (key r) (select_rows p t)

  abbrev pub delete_rows : (Row → Bool) → List Row → List Row
  delete_rows p [] = []
  delete_rows p (r ∷ t) = if p r then drop_key (key r) (delete_rows p t) else r ∷ delete_rows p t

  abbrev pub drop_keys : List String → List Row → List Row
  drop_keys ks [] = []
  drop_keys ks (r ∷ t) = if has (key r) ks then drop_keys ks t else r ∷ drop_keys ks t

  has-drop_key :
      (k j : String) (t : List Row)
      → has k (map key (drop_key j t)) ≡ (if j == k then false else has k (map key t))
  unfolding has
  has-drop_key k j [] = ground arith
  has-drop_key k j (r ∷ t) =
      ground (arith, eq_iff j k, eq_iff (key r) k, eq_iff (key r) j, has-drop_key k j t)

  get-drop_key :
      (k j : String) (t : List Row)
      → get_row k (drop_key j t) ≡ (if j == k then none else get_row k t)
  get-drop_key k j [] = ground arith
  get-drop_key k j (r ∷ t) =
      ground (arith, eq_iff j k, eq_iff (key r) k, eq_iff (key r) j, get-drop_key k j t)

  pub get-update_rows :
      (k j : String) (f : Row → Row) (t : List Row)
      → ((r : Row) → key (f r) ≡ key r)
      → get_row k (update_rows j f t) ≡ (if j == k then on_row f (get_row k t) else get_row k t)
  get-update_rows k j f [] h = ground arith
  get-update_rows k j f (r ∷ t) h =
      ground (arith, eq_iff j k, eq_iff (key r) k, eq_iff (key r) j, h r, get-update_rows k j f t h)

  pub has-select_rows :
      (k : String) (p : Row → Bool) (t : List Row)
      → has k (map key (select_rows p t)) ≡ passes p (get_row k t)
  unfolding has
  has-select_rows k p [] = refl
  has-select_rows k p (r ∷ t) =
      ground
        (arith, eq_iff (key r) k, has-drop_key k (key r) (select_rows p t), has-select_rows k p t)

  pub get-delete_rows :
      (k : String) (p : Row → Bool) (t : List Row)
      → get_row k (delete_rows p t) ≡ keep_if (not (passes p (get_row k t))) (get_row k t)
  get-delete_rows k p [] = refl
  get-delete_rows k p (r ∷ t) =
      ground
        (arith, eq_iff (key r) k, get-drop_key k (key r) (delete_rows p t), get-delete_rows k p t)

  pub get-drop_keys :
      (k : String) (ks : List String) (t : List Row)
      → get_row k (drop_keys ks t) ≡ keep_if (not (has k ks)) (get_row k t)
  get-drop_keys k ks [] = ground arith
  get-drop_keys k ks (r ∷ t) = ground (arith, eq_iff (key r) k, get-drop_keys k ks t)

  abbrev pub list_table : Table Row key
  list_table = record {
    Rows = List Row;
    empty = [];
    get = get_row;
    put = λ r t. r ∷ t;
    update = update_rows;
    select = select_rows;
    delete_where = delete_rows;
    bulk_delete = drop_keys;
    get-empty = λ k. refl;
    get-put = λ k r t. refl;
    get-update = get-update_rows;
    has-select = has-select_rows;
    get-delete_where = get-delete_rows;
    get-bulk_delete = get-drop_keys;
  }

abbrev pub toy_engine : Engine toy
toy_engine = record {
  sessions = list_table session_key_of;
  messages = list_table message_key_of;
  sort_by_sent_at = λ ms. ms;
  has-sort_by_sent_at = λ k ms. refl;
}
