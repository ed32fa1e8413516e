-- ===== src/Storage/Purge.antt =====
-- What the statistics say after a category was cleared.
use nodetalk.Prelude.{
  ℕ, ◌*◌, ◌≡◌, ◌≢◌, refl, sym, ap, ◌∙◌, String, Bool, true, false, not, List, [], ◌∷◌, map, arith,
  eq_iff, length, filter,
}
use nodetalk.Prelude.IdSet.{has}
use nodetalk.Storage.{
  AreDistinct, Table, CachedMessage, CachedFile, StorageCategoryStats, StorageCategory, NodeTalkDb,
  initial, count_files, nothing, stats_of, is_in, ids_to_delete, get_storage_stats, delete_all,
  clear_category,
}
use nodetalk.Storage.Stats.{
  tally, at, IsFiles, count_files_lem, sum_sizes, image_not_video, image_not_audio, video_not_audio,
}

filter_emptied {ℓ} :
    {A : Type ℓ} (p : A → Bool) (xs : List A) → filter p (filter (λ x. not (p x)) xs) ≡ []
unfolding filter
filter_emptied p [] = refl
filter_emptied p (x ∷ xs) = ground (arith, filter_emptied p xs)

filter_kept {ℓ} :
    {A : Type ℓ} (p q : A → Bool) (xs : List A)
    → ((x : A) → p x ≡ true → q x ≡ false)
    → filter q (filter (λ x. not (p x)) xs) ≡ filter q xs
unfolding filter
filter_kept p q [] h = refl
filter_kept p q (x ∷ xs) h = ground (arith, filter_kept p q xs h, h x)

filter_all {ℓ} : {A : Type ℓ} (xs : List A) → filter (λ x. true) xs ≡ xs
unfolding filter
filter_all [] = refl
filter_all (x ∷ xs) = ap (λ r. x ∷ r) (filter_all xs)

-- A file has one category.
categories_apart :
    (c d : StorageCategory) (file : CachedFile)
    → IsFiles c
    → IsFiles d
    → d ≢ c
    → is_in c file ≡ true
    → is_in d file ≡ false
unfolding is_in
categories_apart StorageCategory.all d file hc hd n h = elim hc [ ]
categories_apart StorageCategory.messages d file hc hd n h = elim hc [ ]
categories_apart c StorageCategory.all file hc hd n h = elim hd [ ]
categories_apart c StorageCategory.messages file hc hd n h = elim hd [ ]
categories_apart StorageCategory.images StorageCategory.images file hc hd n h = absurd (n refl)
categories_apart StorageCategory.videos StorageCategory.videos file hc hd n h = absurd (n refl)
categories_apart StorageCategory.voices StorageCategory.voices file hc hd n h = absurd (n refl)
categories_apart StorageCategory.other_files StorageCategory.other_files file hc hd n h =
    absurd (n refl)
categories_apart c d file hc hd n h =
    ground (arith, image_not_video file.mime, image_not_audio file.mime, video_not_audio file.mime)

not_deleted :
    (c : StorageCategory) (id : String) (files : List CachedFile)
    → has id (map CachedFile.id files) ≡ false
    → has id (ids_to_delete c files) ≡ false
unfolding has ids_to_delete
not_deleted c id [] h = refl
not_deleted c id (file ∷ files) h = ground (arith, not_deleted c id files)

delete_absent :
    (id : String) (ids : List String) (files : List CachedFile)
    → has id (map CachedFile.id files) ≡ false
    → filter (λ r. not (has r.id (id ∷ ids))) files ≡ filter (λ r. not (has r.id ids)) files
unfolding has filter
delete_absent id ids [] h = refl
delete_absent id ids (file ∷ files) h =
    ground (arith, delete_absent id ids files, eq_iff id file.id, eq_iff file.id id)

-- Deletion by id takes the files of the category and no others.
deleted-category :
    (c : StorageCategory) (files : List CachedFile)
    → AreDistinct (map CachedFile.id files)
    → filter (λ r. not (has r.id (ids_to_delete c files))) files
      ≡ filter (λ r. not (is_in c r)) files
unfolding has filter ids_to_delete
deleted-category c [] h = refl
deleted-category c (file ∷ files) h = ground (
  arith,
  deleted-category c files,
  not_deleted c file.id files,
  delete_absent file.id (ids_to_delete c files) files,
  eq_iff file.id file.id,
)

tally_emptied :
    (c : StorageCategory) (files : List CachedFile)
    → tally c (filter (λ r. not (is_in c r)) files) ≡ nothing
unfolding tally
tally_emptied c files =
    ap (λ kept. record { count = length kept; bytes = sum_sizes kept })
      (filter_emptied (is_in c) files)

tally_kept :
    (c d : StorageCategory) (files : List CachedFile)
    → IsFiles c
    → IsFiles d
    → d ≢ c
    → tally d (filter (λ r. not (is_in c r)) files) ≡ tally d files
unfolding tally
tally_kept c d files hc hd n =
    ap (λ kept. record { count = length kept; bytes = sum_sizes kept })
      (filter_kept (is_in c) (is_in d) files (λ f. categories_apart c d f hc hd n))

-- The statistics of a category of files are its tally.
at_stats :
    (c : StorageCategory) (files : List CachedFile) (n : ℕ)
    → IsFiles c
    → at c (stats_of files n) ≡ tally c files
unfolding stats_of
at_stats StorageCategory.all files n h = elim h [ ]
at_stats StorageCategory.messages files n h = elim h [ ]
at_stats c files n h = ground (arith, count_files_lem c files (initial files n))

module _ (message_table : Table CachedMessage CachedMessage.id)
    (file_table : Table CachedFile CachedFile.id) (db : NodeTalkDb message_table file_table) where
  rows-delete_all :
      (ids : List String)
      → file_table.to_array (delete_all message_table file_table ids db).files
        ≡ filter (λ r. not (has r.id ids)) (file_table.to_array db.files)
  unfolding delete_all has
  rows-delete_all [] = sym (filter_all (file_table.to_array db.files))
  rows-delete_all (id ∷ ids) = file_table.to_array-bulk_delete (id ∷ ids) db.files

  messages-delete_all :
      (ids : List String) → (delete_all message_table file_table ids db).messages ≡ db.messages
  unfolding delete_all
  messages-delete_all [] = refl
  messages-delete_all (id ∷ ids) = refl

  -- Clearing a category of files is the deletion of their ids.
  clear_files :
      (c : StorageCategory)
      → IsFiles c
      → clear_category message_table file_table c db
        ≡ delete_all message_table file_table (ids_to_delete c (file_table.to_array db.files)) db
  unfolding clear_category
  clear_files StorageCategory.all h = elim h [ ]
  clear_files StorageCategory.messages h = elim h [ ]
  clear_files c h = refl

  remaining :
      (c : StorageCategory)
      → IsFiles c
      → file_table.to_array (clear_category message_table file_table c db).files
        ≡ filter (λ r. not (is_in c r)) (file_table.to_array db.files)
  remaining c h =
      let files = file_table.to_array db.files in
      ap (λ s. file_table.to_array s.files) (clear_files c h)
      ∙ rows-delete_all (ids_to_delete c files)
      ∙ deleted-category c files (file_table.keys-AreDistinct db.files)

  stats_after :
      (c d : StorageCategory)
      → IsFiles c
      → IsFiles d
      → at d (
          get_storage_stats message_table file_table (clear_category message_table file_table c db))
        ≡ tally d (filter (λ r. not (is_in c r)) (file_table.to_array db.files))
  unfolding get_storage_stats
  stats_after c d hc hd = at_stats d _ _ hd ∙ ap (tally d) (remaining c hc)

  stats-messages :
      (c : StorageCategory)
      → IsFiles c
      → at StorageCategory.messages (
          get_storage_stats message_table file_table (clear_category message_table file_table c db))
        ≡ at StorageCategory.messages (get_storage_stats message_table file_table db)
  unfolding get_storage_stats stats_of
  stats-messages c h =
      let counted = λ (rows : message_table.Rows).
        let n = length (message_table.to_array rows) in
        let stats : StorageCategoryStats = record { count = n; bytes = n * 300 } in stats in
      ap counted (
        ap (λ s. s.messages) (clear_files c h)
        ∙ messages-delete_all (ids_to_delete c (file_table.to_array db.files)))

  stats-clear_all :
      at StorageCategory.all (
        get_storage_stats message_table file_table
          (clear_category message_table file_table StorageCategory.all db))
      ≡ nothing
  unfolding get_storage_stats clear_category stats_of count_files
  stats-clear_all = λ i. at StorageCategory.all (
      stats_of (file_table.to_array-clear db.files i)
        (length (message_table.to_array-clear db.messages i)))

  -- After a category c of files was cleared, nothing is counted in it, and any other category d of
  -- files and the messages count what they did before; after all was cleared nothing is counted.
  pub clear_category_lem :
      (c d : StorageCategory)
      → IsFiles c
      → IsFiles d
      → d ≢ c
      → let stats = get_storage_stats message_table file_table in
        let clear = λ (k : StorageCategory). clear_category message_table file_table k db in
        (at c (stats (clear c)) ≡ nothing)
        × (at d (stats (clear c)) ≡ at d (stats db))
        × ((stats (clear c)).messages ≡ (stats db).messages)
        × (at StorageCategory.all (stats (clear StorageCategory.all)) ≡ nothing)
  unfolding get_storage_stats
  clear_category_lem c d hc hd n =
      let files = file_table.to_array db.files in
      (
        stats_after c c hc hc ∙ tally_emptied c files,
        stats_after c d hc hd
            ∙ tally_kept c d files hc hd n
            ∙ sym (at_stats d files (length (message_table.to_array db.messages)) hd),
        stats-messages c hc,
        stats-clear_all,
      )
