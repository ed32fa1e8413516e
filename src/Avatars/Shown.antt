-- ===== src/Avatars/Shown.antt =====
-- The cache over any loads, answers and invalidations.
use nodetalk.Prelude.{
  ℕ, ◌≡◌, ap, sym, ◌∙◌, String, false, List, [], ◌∷◌, ◌++◌, Option, none, some, arith, ◌==◌,
  if◌then◌else◌, any, Bool-cases, Option-cases, inl, inr,
}
use nodetalk.Prelude.Dict
use nodetalk.Prelude.Dict.{Dict}
use nodetalk.Prelude.IdSet
use nodetalk.Avatars.{
  Bytes, File, Cache, load_avatar, show, mime_of, use_file, db_answered, server_answered,
  invalidate_avatar, detect_mime_type,
}
use nodetalk.Avatars.Live.{
  holds, AreLive, AreBelow, insert-AreLive, erase-AreLive, revoke-AreLive, erased_not_held,
  found-held, holds-AreBelow, later-AreBelow, append-AreBelow,
}

pub data Step : Type 0 where
  loads db_answers invalidates : String → Step
  server_answers : String → Option Bytes → Step

unfoldable pub take : (Bytes → String) → Step → Cache → Cache
take decode (loads id) s = (load_avatar id s).0
take decode (db_answers id) s = db_answered decode id s
take decode (invalidates id) s = invalidate_avatar id s
take decode (server_answers id answer) s = server_answered decode id answer s

unfoldable pub take_all : (Bytes → String) → List Step → Cache → Cache
unfolding take
take_all decode [] s = s
take_all decode (e ∷ steps) s = take_all decode steps (take decode e s)

abbrev pub IsLive : Cache → Type 0
IsLive s = AreLive s.next_url s.revoked s.memory_cache × AreBelow s.next_url s.revoked

load-IsLive : (id : String) (s : Cache) → IsLive s → IsLive (load_avatar id s).0
unfolding load_avatar
load-IsLive id s v = elim (Bool-cases (id == "")) [
  | inl e ↦ rw e v
  | inr e ↦ elim (Option-cases (Dict.lookup id s.memory_cache)) [
    | inr (u, f) ↦ rw (e, f) v
    | inl f ↦ elim (Bool-cases (IdSet.has id s.in_flight_promises)) [
      | inl g ↦ rw (e, f, g) v
      | inr g ↦ rw (e, f, g) v
    ]
  ]
]

show-IsLive : (id mime : String) (s : Cache) → IsLive s → IsLive (show id mime s)
unfolding show
show-IsLive id mime s (v, w) = (
  insert-AreLive s.next_url s.revoked id s.memory_cache (holds-AreBelow s.next_url s.revoked w) v,
  later-AreBelow s.next_url s.revoked w,
)

file-IsLive :
    (decode : Bytes → String) (id : String) (o : Option File) (s : Cache)
    → IsLive s
    → IsLive (use_file decode id o s)
unfolding use_file
file-IsLive decode id none s v = v
file-IsLive decode id (some file) s v =
    elim file.bytes
      as (λ bytes. IsLive (elim bytes as (λ _. Cache) [
        | [] ↦ record s { requested = s.requested ++ id ∷ [] }
        | _ ∷ _ ↦ show id (mime_of decode file) s
      ])) [ [] ↦ v | _ ∷ _ ↦ show-IsLive id (mime_of decode file) s v ]

server-IsLive :
    (decode : Bytes → String) (id : String) (answer : Option Bytes) (s : Cache)
    → IsLive s
    → IsLive (server_answered decode id answer s)
unfolding server_answered
server-IsLive decode id none s v = v
server-IsLive decode id (some []) s v = v
server-IsLive decode id (some (b ∷ bytes)) s v =
    let mime = detect_mime_type decode (b ∷ bytes) in
    let file : File = record { bytes = b ∷ bytes; mime = mime } in
    show-IsLive id mime
      (record s { files = if s.has_db then Dict.insert id file s.files else s.files }) v

invalidate-IsLive : (id : String) (s : Cache) → IsLive s → IsLive (invalidate_avatar id s)
unfolding invalidate_avatar
invalidate-IsLive id s (v, w) = elim (Bool-cases (id == "")) [
  | inl e ↦ rw e (v, w)
  | inr e ↦ elim (Option-cases (Dict.lookup id s.memory_cache)) [
    | inl f ↦ rw (e, f) (v, w)
    | inr (u, f) ↦
        let rest = erase-AreLive s.next_url s.revoked id s.memory_cache v in
        let gone = erased_not_held s.next_url s.revoked id u s.memory_cache v f in
        let old = found-held s.next_url s.revoked id u s.memory_cache v f in
        rw (e, f)
          (
            revoke-AreLive s.next_url u s.revoked (Dict.erase id s.memory_cache) gone rest,
            append-AreBelow s.next_url u s.revoked w old.1,
          )
  ]
]

take-IsLive : (decode : Bytes → String) (e : Step) (s : Cache) → IsLive s → IsLive (take decode e s)
unfolding take db_answered
take-IsLive decode (loads id) s v = load-IsLive id s v
take-IsLive decode (db_answers id) s v =
    file-IsLive decode id (if s.has_db then Dict.lookup id s.files else none) s v
take-IsLive decode (invalidates id) s v = invalidate-IsLive id s v
take-IsLive decode (server_answers id answer) s v = server-IsLive decode id answer s v

take_all-IsLive :
    (decode : Bytes → String) (steps : List Step) (s : Cache)
    → IsLive s
    → IsLive (take_all decode steps s)
unfolding take_all
take_all-IsLive decode [] s v = v
take_all-IsLive decode (e ∷ steps) s v =
    take_all-IsLive decode steps (take decode e s) (take-IsLive decode e s v)

found-AreLive :
    (next : ℕ) (revoked : List ℕ) (id : String) (u : ℕ) (entries : Dict ℕ)
    → AreLive next revoked entries
    → Dict.lookup id entries ≡ some u
    → holds u revoked ≡ false
unfolding Dict.lookup any
found-AreLive next revoked id u [] v e = cc
found-AreLive next revoked id u ((j, w) ∷ entries) v e = elim (Bool-cases (j == id)) [
  | inl h ↦ let same : w ≡ u = ground (arith, h, e) in ap (λ x. holds x revoked) (sym same) ∙ v.1
  | inr h ↦ found-AreLive next revoked id u entries v.3 (ground (arith, h, e))
]

-- Whatever loads, answers of the database and the server, and invalidations come, in any order, since a
-- cache without pictures and revoked URLs: a picture that the cache gives at once has a URL that was
-- not revoked.
pub shown_urls_live :
    (decode : Bytes → String) (steps : List Step) (id : String) (url : ℕ) (s : Cache)
    → Dict.lookup id
        (take_all decode steps (record s { memory_cache = []; revoked = [] })).memory_cache
      ≡ some url
    → holds url (take_all decode steps (record s { memory_cache = []; revoked = [] })).revoked
      ≡ false
unfolding AreBelow
shown_urls_live decode steps id url s found =
    let t = take_all decode steps (record s { memory_cache = []; revoked = [] }) in
    let v = take_all-IsLive decode steps (record s { memory_cache = []; revoked = [] }) (tt, tt) in
    found-AreLive t.next_url t.revoked id url t.memory_cache v.0 found
