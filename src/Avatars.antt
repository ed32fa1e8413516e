-- ===== src/Avatars.antt =====
-- client-web/src/lib/avatarCache.ts: the cached pictures of users. An object URL is a number, each new
-- one larger; a load is cut where it awaits the database of the browser and where it awaits the server.
pub mod Live
pub mod Shown
mod Tests
use Prim.Native.String
use text.Mathlib.Text.{find?}
use nodetalk.Prelude.{
  ℕ, zero, suc, String, Bool, true, false, not, ◌&&◌, ◌||◌, List, [], ◌∷◌, ◌++◌, Option, none, some,
  nat_beq, ltb, ◌==◌, if◌then◌else◌, filter, length, is_some, or_text?,
}
use nodetalk.Prelude.Dict
use nodetalk.Prelude.Dict.{Dict}
use nodetalk.Prelude.IdSet

abbrev pub Bytes : Type 0
Bytes = List ℕ

-- The bytes from a place on are these.
abbrev bytes_at : ℕ → Bytes → Bytes → Bool
bytes_at i [] bytes = true
bytes_at i (b ∷ magic) bytes = is_byte (get i bytes) b && bytes_at (suc i) magic bytes
  where
    get : ℕ → Bytes → Option ℕ
    get i [] = none
    get zero (b ∷ bytes) = some b
    get (suc i) (b ∷ bytes) = get i bytes

    is_byte : Option ℕ → ℕ → Bool
    is_byte none b = false
    is_byte (some a) b = nat_beq a b

-- `decode` gives the text of the first hundred bytes.
pub detect_mime_type : (Bytes → String) → Bytes → String
detect_mime_type decode bytes =
    if bytes_at 0 (255 ∷ 216 ∷ 255 ∷ []) bytes
    then "image/jpeg"
    else if bytes_at 0 (137 ∷ 80 ∷ 78 ∷ 71 ∷ []) bytes
    then "image/png"
    else if bytes_at 0 (71 ∷ 73 ∷ 70 ∷ []) bytes
    then "image/gif"
    else if bytes_at 0 (82 ∷ 73 ∷ 70 ∷ 70 ∷ []) bytes && bytes_at 8 (87 ∷ 69 ∷ 66 ∷ 80 ∷ []) bytes
    then "image/webp"
    else if is_some (find? (decode bytes) "<svg") || is_some (find? (decode bytes) "<?xml")
    then "image/svg+xml"
    else "image/jpeg"

pub record File : Type 0 where
  pub bytes : Bytes
  pub mime : String

pub record Cache : Type 0 where
  -- avatar id → object URL
  pub memory_cache : Dict ℕ
  pub in_flight_promises : List String
  -- the files of the browser's database, and whether there is one
  pub has_db : Bool
  pub files : Dict File
  pub next_url : ℕ
  -- the types of the blobs behind the URLs, and the URLs that were revoked
  pub made : List (ℕ × String)
  pub revoked : List ℕ
  -- the requests to the server
  pub requested : List String

-- What the caller gets.
pub data Loading : Type 0 where
  nothing shares starts : Loading
  ready : ℕ → Loading

unfoldable pub load_avatar : String → Cache → Cache × Loading
load_avatar id s = if id == "" then (s, nothing) else elim (Dict.lookup id s.memory_cache) [
  | some url ↦ (s, ready url)
  | none ↦
      if IdSet.has id s.in_flight_promises
      then (s, shares)
      else (record s { in_flight_promises = IdSet.add id s.in_flight_promises }, starts)
]

-- A new URL for the picture, and the end of its load.
unfoldable pub show : String → String → Cache → Cache
show id mime s = record s {
  memory_cache = Dict.insert id s.next_url s.memory_cache;
  next_url = suc s.next_url;
  made = s.made ++ (s.next_url, mime) ∷ [];
  in_flight_promises = IdSet.delete id s.in_flight_promises;
}

-- The type of a cached file, which may be missing.
abbrev pub mime_of : (Bytes → String) → File → String
mime_of decode file = if file.mime == "" then detect_mime_type decode file.bytes else file.mime

-- A file that is not empty is shown; otherwise the server is asked.
unfoldable pub use_file : (Bytes → String) → String → Option File → Cache → Cache
unfolding show
use_file decode id none s = record s { requested = s.requested ++ id ∷ [] }
use_file decode id (some file) s = elim file.bytes as (λ _. Cache) [
  | [] ↦ record s { requested = s.requested ++ id ∷ [] }
  | _ ∷ _ ↦ show id (mime_of decode file) s
]

-- The database has answered.
unfoldable pub db_answered : (Bytes → String) → String → Cache → Cache
unfolding use_file
db_answered decode id s = use_file decode id (if s.has_db then Dict.lookup id s.files else none) s

-- The server has answered; `none` for an error.
unfoldable pub server_answered : (Bytes → String) → String → Option Bytes → Cache → Cache
unfolding show detect_mime_type
server_answered decode id answer s =
    let failed = record s { in_flight_promises = IdSet.delete id s.in_flight_promises } in
    elim answer [
      | none ↦ failed
      | some [] ↦ failed
      | some bytes ↦
          let mime = detect_mime_type decode bytes in
          show id mime (record s {
            files =
                if s.has_db
                then Dict.insert id (record { bytes = bytes; mime = mime }) s.files
                else s.files;
          })
    ]

unfoldable pub invalidate_avatar : String → Cache → Cache
invalidate_avatar id s =
    let cleared = if s.has_db then Dict.erase id s.files else s.files in
    if id == "" then s else elim (Dict.lookup id s.memory_cache) [
      | none ↦ record s { files = cleared }
      | some url ↦ record s {
        memory_cache = Dict.erase id s.memory_cache;
        revoked = s.revoked ++ url ∷ [];
        files = cleared;
      }
    ]

unfoldable pub invalidate_all : List String → Cache → Cache
unfolding invalidate_avatar
invalidate_all [] s = s
invalidate_all (id ∷ ids) s = invalidate_all ids (invalidate_avatar id s)

unfoldable pub evict_stale_avatars : List String → List String → Cache → Cache
unfolding invalidate_all
evict_stale_avatars active_ids candidate_ids =
    invalidate_all (filter (λ id. not (id == "") && not (IdSet.has id active_ids)) candidate_ids)

unfoldable pub load_all : List String → Cache → Cache
unfolding load_avatar
load_all [] s = s
load_all (id ∷ ids) s = load_all ids (load_avatar id s).0

abbrev distinct : List String → List String
distinct [] = []
distinct (id ∷ ids) = id ∷ filter (λ j. not (j == id)) (distinct ids)

pub prewarm_avatars : List String → Cache → Cache
unfolding load_all
prewarm_avatars ids = load_all (distinct (filter (λ id. not (id == "")) ids))
