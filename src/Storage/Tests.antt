-- ===== src/Storage/Tests.antt =====
-- The theorems on the stored data, at tables that are lists of rows of which the first of each key
-- counts.
use nodetalk.Prelude.{
  ◌+◌, ◌*◌, ◌≡◌, ◌≢◌, refl, ap, ◌∙◌, String, Bool, not, false, true, List, [], ◌∷◌, ◌++◌, map, none,
  some, arith, ◌==◌, eq_iff, if◌then◌else◌, filter, find,
}
use nodetalk.Prelude.IdSet.{has}
use nodetalk.Storage.{
  AreDistinct, Table, CachedMessage, CachedFile, StorageCategory, NodeTalkDb, nothing,
  get_storage_stats, clear_category,
}
use nodetalk.Storage.Stats.{at, stats_divided}
use nodetalk.Storage.Purge.{clear_category_lem}

module _ {Row : Type 0} (key : Row → String) where
  abbrev other : String → Row → Bool
  other k r = not (key r == k)

  abbrev kept : List String → Row → Bool
  kept ids r = not (has (key r) ids)

  firsts : List Row → List Row
  firsts [] = []
  firsts (r ∷ rows) = r ∷ filter (other (key r)) (firsts rows)

  firsts_nil : (rows : List Row) → firsts [] ≡ []
  unfolding firsts
  firsts_nil rows = refl

  filter_comm :
      (p q : Row → Bool) (rows : List Row) → filter p (filter q rows) ≡ filter q (filter p rows)
  unfolding filter
  filter_comm p q [] = refl
  filter_comm p q (r ∷ rows) = ground (arith, filter_comm p q rows)

  has-filter :
      (k j : String) (rows : List Row)
      → has k (map key (filter (other j) rows)) ≡ (if j == k then false else has k (map key rows))
  unfolding filter has
  has-filter k j [] = ground arith
  has-filter k j (r ∷ rows) =
      ground (arith, has-filter k j rows, eq_iff (key r) j, eq_iff (key r) k, eq_iff j k)

  filter-AreDistinct :
      (j : String) (rows : List Row)
      → AreDistinct (map key rows)
      → AreDistinct (map key (filter (other j) rows))
  unfolding filter
  filter-AreDistinct j [] h = h
  filter-AreDistinct j (r ∷ rows) h =
      ground (arith, has-filter (key r) j rows, filter-AreDistinct j rows)

  firsts-AreDistinct : (rows : List Row) → AreDistinct (map key (firsts rows))
  unfolding firsts
  firsts-AreDistinct [] = tt
  firsts-AreDistinct (r ∷ rows) = (
    has-filter (key r) (key r) (firsts rows)
        ∙ ap (λ b. if b then false else has (key r) (map key (firsts rows)))
            ((eq_iff (key r) (key r)).1 refl),
    filter-AreDistinct (key r) (firsts rows) (firsts-AreDistinct rows),
  )

  filter_covered :
      (ids : List String) (k : String) (rows : List Row)
      → has k ids ≡ true
      → filter (kept ids) (filter (other k) rows) ≡ filter (kept ids) rows
  unfolding filter
  filter_covered ids k [] h = refl
  filter_covered ids k (r ∷ rows) h = ground (arith, filter_covered ids k rows, eq_iff (key r) k)

  firsts-filter :
      (ids : List String) (rows : List Row)
      → firsts (filter (kept ids) rows) ≡ filter (kept ids) (firsts rows)
  unfolding firsts filter
  firsts-filter ids [] = refl
  firsts-filter ids (r ∷ rows) = ground (
    arith,
    firsts-filter ids rows,
    filter_covered ids (key r) (firsts rows),
    filter_comm (other (key r)) (kept ids) (firsts rows),
  )

  abbrev list_table : Table Row key
  list_table = record {
    Rows = List Row;
    to_array = firsts;
    get = λ id. find (λ r. key r == id);
    put = λ r rows. r ∷ rows;
    bulk_put = λ new rows. new ++ rows;
    delete = λ id. filter (other id);
    bulk_delete = λ ids. filter (kept ids);
    delete_where = λ p. filter (λ r. not (p r));
    clear = λ rows. [];
    to_array-clear = firsts_nil;
    to_array-bulk_delete = firsts-filter;
    keys-AreDistinct = firsts-AreDistinct;
  }

abbrev photo : CachedFile
photo = record {
  id = "f1";
  bytes = some (1 ∷ 2 ∷ 3 ∷ []);
  mime = "image/png";
  size = none;
  cached_at = none;
}

abbrev song : CachedFile
song = record { id = "f2"; bytes = none; mime = "audio/ogg"; size = some 900; cached_at = some 5 }

abbrev greeting : CachedMessage
greeting = record { id = "m1"; channel_id = "c1"; text = some "hi" }

abbrev stored : NodeTalkDb (list_table CachedMessage.id) (list_table CachedFile.id)
stored = record { messages = greeting ∷ []; files = photo ∷ song ∷ photo ∷ [] }

images-ne-voices : StorageCategory.voices ≢ StorageCategory.images
images-ne-voices h = cc

stats_divided_example :
    let s = get_storage_stats (list_table CachedMessage.id) (list_table CachedFile.id) stored in
    (s.total_count
      ≡ s.images.count + s.videos.count + s.voices.count + s.other_files.count + s.messages.count)
    × (s.total_bytes
        ≡ s.images.bytes + s.videos.bytes + s.voices.bytes + s.other_files.bytes + s.messages.bytes)
    × (s.messages.bytes ≡ 300 * s.messages.count)
stats_divided_example =
    stats_divided (list_table CachedMessage.id) (list_table CachedFile.id) stored

clear_category_lem_example :
    let stats = get_storage_stats (list_table CachedMessage.id) (list_table CachedFile.id) in
    let clear = λ (k : StorageCategory).
      clear_category (list_table CachedMessage.id) (list_table CachedFile.id) k stored in
    (at StorageCategory.images (stats (clear StorageCategory.images)) ≡ nothing)
    × (at StorageCategory.voices (stats (clear StorageCategory.images))
        ≡ at StorageCategory.voices (stats stored))
    × ((stats (clear StorageCategory.images)).messages ≡ (stats stored).messages)
    × (at StorageCategory.all (stats (clear StorageCategory.all)) ≡ nothing)
clear_category_lem_example =
    clear_category_lem (list_table CachedMessage.id) (list_table CachedFile.id) stored
      StorageCategory.images StorageCategory.voices tt tt images-ne-voices
