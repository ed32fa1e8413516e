-- ===== src/Storage.antt =====
-- client-web/src/lib/db.ts: the messages and files that the browser keeps, their statistics by
-- category, and the purge of a category. Dexie is a parameter: a table whose rows come in the order of
-- their primary keys. Of a message its id, its channel and its text are kept.
pub mod Stats
pub mod Purge
mod Tests
use mathlib.Core.List.{reverse}
use text.Mathlib.Text.{starts_with}
use nodetalk.Prelude.{
  ℕ, ◌+◌, ◌*◌, ◌≡◌, String, Bool, true, false, not, ◌&&◌, List, [], ◌∷◌, map, Option, none, some,
  if◌then◌else◌, or_default, length, filter, ltb, ◌==◌, zero, suc,
}
use nodetalk.Prelude.IdSet.{has}

abbrev pub AreDistinct : List String → Type 0
AreDistinct [] = Unit
AreDistinct (id ∷ ids) = (has id ids ≡ false) × AreDistinct ids

-- A table, with the documented behaviour of `clear` and `bulkDelete`, and of primary keys.
pub record Table (Row : Type 0) (key : Row → String) : Type 1 where
  pub Rows : Type 0
  pub to_array : Rows → List Row
  pub get : String → Rows → Option Row
  pub put : Row → Rows → Rows
  pub bulk_put : List Row → Rows → Rows
  pub delete : String → Rows → Rows
  pub bulk_delete : List String → Rows → Rows
  pub delete_where : (Row → Bool) → Rows → Rows
  pub clear : Rows → Rows
  pub to_array-clear : (t : Rows) → to_array (clear t) ≡ []
  pub to_array-bulk_delete :
      (ids : List String) (t : Rows)
      → to_array (bulk_delete ids t) ≡ filter (λ r. not (has (key r) ids)) (to_array t)
  pub keys-AreDistinct : (t : Rows) → AreDistinct (map key (to_array t))

pub record CachedMessage : Type 0 where
  pub id : String
  pub channel_id : String
  pub text : Option String

pub record CachedFile : Type 0 where
  pub id : String
  pub bytes : Option (List ℕ)
  pub mime : String
  pub size : Option ℕ
  pub cached_at : Option ℕ

pub record StorageCategoryStats : Type 0 where
  pub count : ℕ
  pub bytes : ℕ

pub record StorageStats : Type 0 where
  pub total_bytes : ℕ
  pub total_count : ℕ
  pub images : StorageCategoryStats
  pub videos : StorageCategoryStats
  pub voices : StorageCategoryStats
  pub other_files : StorageCategoryStats
  pub messages : StorageCategoryStats

pub data StorageCategory : Type 0 where
  all images videos voices other_files messages : StorageCategory

-- `file.size ?? file.data?.byteLength ?? 0`
unfoldable pub byte_size : CachedFile → ℕ
byte_size file = or_default file.size (elim file.bytes [ none ↦ 0 | some bytes ↦ length bytes ])

abbrev pub counted : ℕ → StorageCategoryStats → StorageCategoryStats
counted size c = record { count = c.count + 1; bytes = c.bytes + size }

-- One round of the loop of `getStorageStats`.
unfoldable pub count_file : CachedFile → StorageStats → StorageStats
count_file file stats =
    let size = byte_size file in
    let s = record stats { total_bytes = stats.total_bytes + size } in
    if starts_with file.mime "image/"
    then record s { images = counted size s.images }
    else (if starts_with file.mime "video/"
        then record s { videos = counted size s.videos }
        else (if starts_with file.mime "audio/"
            then record s { voices = counted size s.voices }
            else record s { other_files = counted size s.other_files }))

unfoldable pub count_files : List CachedFile → StorageStats → StorageStats
unfolding count_file
count_files [] stats = stats
count_files (file ∷ files) stats = count_files files (count_file file stats)

abbrev pub nothing : StorageCategoryStats
nothing = record { count = 0; bytes = 0 }

abbrev pub initial : List CachedFile → ℕ → StorageStats
initial files message_count = record {
  total_bytes = 0;
  total_count = length files + message_count;
  images = nothing;
  videos = nothing;
  voices = nothing;
  other_files = nothing;
  messages = record { count = message_count; bytes = 0 };
}

unfoldable pub stats_of : List CachedFile → ℕ → StorageStats
stats_of files message_count =
    let stats = count_files files (initial files message_count) in
    let estimated = message_count * 300 in
    record stats {
      messages = record { count = message_count; bytes = estimated };
      total_bytes = stats.total_bytes + estimated;
    }

-- The test of the loop of `clearCategory`.
unfoldable pub is_in : StorageCategory → CachedFile → Bool
is_in all file = false
is_in messages file = false
is_in images file = starts_with file.mime "image/"
is_in videos file = starts_with file.mime "video/"
is_in voices file = starts_with file.mime "audio/"
is_in other_files file =
    not (starts_with file.mime "image/")
    && not (starts_with file.mime "video/")
    && not (starts_with file.mime "audio/")

unfoldable pub ids_to_delete : StorageCategory → List CachedFile → List String
unfolding is_in
ids_to_delete category [] = []
ids_to_delete category (file ∷ files) =
    if is_in category file
    then file.id ∷ ids_to_delete category files
    else ids_to_delete category files

abbrev pub take {ℓ} : {A : Type ℓ} → ℕ → List A → List A
take zero xs = []
take (suc n) [] = []
take (suc n) (x ∷ xs) = x ∷ take n xs

module _ (message_table : Table CachedMessage CachedMessage.id)
    (file_table : Table CachedFile CachedFile.id) where
  pub record NodeTalkDb : Type 0 where
    pub messages : message_table.Rows
    pub files : file_table.Rows

  unfoldable pub cache_messages : List CachedMessage → NodeTalkDb → NodeTalkDb
  cache_messages [] db = db
  cache_messages (msg ∷ msgs) db = record db {
    messages = message_table.bulk_put (msg ∷ msgs) db.messages;
  }

  unfoldable pub delete_message : String → NodeTalkDb → NodeTalkDb
  delete_message id db = record db { messages = message_table.delete id db.messages }

  -- `reverse`, `limit` and the reversal of what comes
  unfoldable pub get_cached_messages : String → ℕ → NodeTalkDb → List CachedMessage
  get_cached_messages channel_id limit db = reverse (
      take limit
        (reverse (filter (λ m. m.channel_id == channel_id) (message_table.to_array db.messages))))

  unfoldable pub clear_channel_cache : String → NodeTalkDb → NodeTalkDb
  clear_channel_cache channel_id db = record db {
    messages = message_table.delete_where (λ m. m.channel_id == channel_id) db.messages;
  }

  unfoldable pub cache_file : String → List ℕ → String → Option ℕ → ℕ → NodeTalkDb → NodeTalkDb
  cache_file id bytes mime size now db =
      let file : CachedFile = record {
        id = id;
        bytes = some bytes;
        mime = mime;
        size = some (or_default size (length bytes));
        cached_at = some now;
      } in
      record db { files = file_table.put file db.files }

  unfoldable pub get_cached_file : String → NodeTalkDb → Option CachedFile
  get_cached_file id db = file_table.get id db.files

  unfoldable pub has_file : String → NodeTalkDb → Bool
  has_file id db = ltb 0 (length (filter (λ f. f.id == id) (file_table.to_array db.files)))

  unfoldable pub clear_file_cache : String → NodeTalkDb → NodeTalkDb
  clear_file_cache id db = record db { files = file_table.delete id db.files }

  unfoldable pub get_storage_stats : NodeTalkDb → StorageStats
  unfolding stats_of
  get_storage_stats db =
      stats_of (file_table.to_array db.files) (length (message_table.to_array db.messages))

  -- `bulkDelete` is called where there is something to delete.
  unfoldable pub delete_all : List String → NodeTalkDb → NodeTalkDb
  delete_all [] db = db
  delete_all (id ∷ ids) db = record db { files = file_table.bulk_delete (id ∷ ids) db.files }

  unfoldable pub clear_category : StorageCategory → NodeTalkDb → NodeTalkDb
  unfolding ids_to_delete delete_all
  clear_category all db = record {
    files = file_table.clear db.files;
    messages = message_table.clear db.messages;
  }
  clear_category messages db = record db { messages = message_table.clear db.messages }
  clear_category category db = delete_all (ids_to_delete category (file_table.to_array db.files)) db
