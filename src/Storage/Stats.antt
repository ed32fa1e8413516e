-- ===== src/Storage/Stats.antt =====
-- The statistics of the stored data: each category counts its own files, and together they are all.
use text.Mathlib.Text.{starts_with}
use Prim.Native.String.{slice}
use nodetalk.Prelude.{
  ℕ, ◌+◌, ◌*◌, ◌≡◌, refl, String, true, false, List, [], ◌∷◌, arith, ◌==◌, eq_iff, length, filter,
}
use nodetalk.Storage.{
  Table, CachedMessage, CachedFile, StorageCategoryStats, StorageStats, StorageCategory, NodeTalkDb,
  byte_size, count_file, count_files, initial, is_in, get_storage_stats,
}

unfoldable pub sum_sizes : List CachedFile → ℕ
unfolding byte_size
sum_sizes [] = 0
sum_sizes (file ∷ files) = byte_size file + sum_sizes files

-- The files of a category, counted at once.
unfoldable pub tally : StorageCategory → List CachedFile → StorageCategoryStats
unfolding is_in sum_sizes
tally c files =
    let kept = filter (is_in c) files in record { count = length kept; bytes = sum_sizes kept }

abbrev pub add_stats : StorageCategoryStats → StorageCategoryStats → StorageCategoryStats
add_stats a b = record { count = a.count + b.count; bytes = a.bytes + b.bytes }

-- What the statistics say of a category.
abbrev pub at : StorageCategory → StorageStats → StorageCategoryStats
at StorageCategory.all s = record { count = s.total_count; bytes = s.total_bytes }
at StorageCategory.images s = s.images
at StorageCategory.videos s = s.videos
at StorageCategory.voices s = s.voices
at StorageCategory.other_files s = s.other_files
at StorageCategory.messages s = s.messages

-- The categories of files.
abbrev pub IsFiles : StorageCategory → Type 0
IsFiles StorageCategory.all = ⊥
IsFiles StorageCategory.messages = ⊥
IsFiles _ = Unit

-- A mime type begins with one of the three at most.
mime_apart :
    (m s t : String) → ((slice m 0 6 == s) ≡ true) → (s == t) ≡ false → (slice m 0 6 == t) ≡ false
mime_apart m s t h k = ground (arith, eq_iff (slice m 0 6) s, eq_iff (slice m 0 6) t, eq_iff s t)

pub image_not_audio : (m : String) → starts_with m "image/" ≡ true → starts_with m "audio/" ≡ false
image_not_audio m h = mime_apart m "image/" "audio/" h refl

pub image_not_video : (m : String) → starts_with m "image/" ≡ true → starts_with m "video/" ≡ false
image_not_video m h = mime_apart m "image/" "video/" h refl

pub video_not_audio : (m : String) → starts_with m "video/" ≡ true → starts_with m "audio/" ≡ false
video_not_audio m h = mime_apart m "video/" "audio/" h refl

count_file_lem :
    (c : StorageCategory) (file : CachedFile) (s : StorageStats)
    → IsFiles c
    → at c (count_file file s) ≡ add_stats (at c s) (tally c (file ∷ []))
unfolding count_file tally filter
count_file_lem StorageCategory.all file s h = elim h [ ]
count_file_lem StorageCategory.messages file s h = elim h [ ]
count_file_lem StorageCategory.images file s h = ground arith
count_file_lem StorageCategory.videos file s h =
    ground (arith, image_not_video file.mime, image_not_audio file.mime, video_not_audio file.mime)
count_file_lem StorageCategory.voices file s h =
    ground (arith, image_not_video file.mime, image_not_audio file.mime, video_not_audio file.mime)
count_file_lem StorageCategory.other_files file s h =
    ground (arith, image_not_video file.mime, image_not_audio file.mime, video_not_audio file.mime)

pub count_files_lem :
    (c : StorageCategory) (files : List CachedFile) (s : StorageStats)
    → IsFiles c
    → at c (count_files files s) ≡ add_stats (at c s) (tally c files)
unfolding count_files tally filter
count_files_lem StorageCategory.all files s h = elim h [ ]
count_files_lem StorageCategory.messages files s h = elim h [ ]
count_files_lem c [] s h = ground arith
count_files_lem c (file ∷ files) s h =
    ground (arith, count_file_lem c file s, count_files_lem c files (count_file file s))

totals_lem :
    (files : List CachedFile) (s : StorageStats)
    → ((count_files files s).total_count ≡ s.total_count)
      × ((count_files files s).total_bytes ≡ s.total_bytes + sum_sizes files)
      × ((count_files files s).messages ≡ s.messages)
      × ((count_files files s).images.count
            + (count_files files s).videos.count
            + (count_files files s).voices.count
            + (count_files files s).other_files.count
          ≡ s.images.count + s.videos.count + s.voices.count + s.other_files.count + length files)
      × ((count_files files s).images.bytes
            + (count_files files s).videos.bytes
            + (count_files files s).voices.bytes
            + (count_files files s).other_files.bytes
          ≡ s.images.bytes
            + s.videos.bytes
            + s.voices.bytes
            + s.other_files.bytes
            + sum_sizes files)
unfolding count_files sum_sizes count_file
totals_lem [] s = ground arith
totals_lem (file ∷ files) s = ground (arith, totals_lem files (count_file file s))

module _ (message_table : Table CachedMessage CachedMessage.id)
    (file_table : Table CachedFile CachedFile.id) (db : NodeTalkDb message_table file_table) where
  -- The categories divide what is stored: every message and file is counted in one of the five
  -- categories, the totals are the sums over these, and a message counts 300 bytes.
  pub stats_divided :
      let s = get_storage_stats message_table file_table db in
      (s.total_count
        ≡ s.images.count + s.videos.count + s.voices.count + s.other_files.count + s.messages.count)
      × (s.total_bytes
          ≡ s.images.bytes + s.videos.bytes + s.voices.bytes + s.other_files.bytes
            + s.messages.bytes)
      × (s.messages.bytes ≡ 300 * s.messages.count)
  unfolding get_storage_stats
  stats_divided =
      let files = file_table.to_array db.files in
      ground (arith, totals_lem files (initial files (length (message_table.to_array db.messages))))
