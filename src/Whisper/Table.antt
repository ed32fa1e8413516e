-- ===== src/Whisper/Table.antt =====
-- A table of IndexedDB as Dexie offers it: rows under a primary key. The laws are the documented
-- behaviour of `put`, `update`, `bulkDelete` and of `where(…)` with `toArray`, `last` and `delete`.
use nodetalk.Prelude.{
  String, ◌≡◌, Bool, false, not, List, map, Option, none, some, ◌==◌, if◌then◌else◌,
}
use nodetalk.Prelude.IdSet.{has}

abbrev pub passes {ℓ} : {A : Type ℓ} → (A → Bool) → Option A → Bool
passes p none = false
passes p (some a) = p a

abbrev pub keep_if {ℓ} : {A : Type ℓ} → Bool → Option A → Option A
keep_if b o = if b then o else none

abbrev pub on_row {ℓ} : {A : Type ℓ} → (A → A) → Option A → Option A
on_row f none = none
on_row f (some a) = some (f a)

pub record Table (Row : Type 0) (key : Row → String) : Type 1 where
  pub Rows : Type 0
  pub empty : Rows
  pub get : String → Rows → Option Row
  pub put : Row → Rows → Rows
  -- `update(key, changes)`; the changes leave the key alone
  pub update : String → (Row → Row) → Rows → Rows
  -- the rows that pass, in the order of the primary key
  pub select : (Row → Bool) → Rows → List Row
  pub delete_where : (Row → Bool) → Rows → Rows
  pub bulk_delete : List String → Rows → Rows
  pub get-empty : (k : String) → get k empty ≡ none
  pub get-put :
      (k : String) (r : Row) (t : Rows) → get k (put r t) ≡ (if key r == k then some r else get k t)
  pub get-update :
      (k j : String) (f : Row → Row) (t : Rows)
      → ((r : Row) → key (f r) ≡ key r)
      → get k (update j f t) ≡ (if j == k then on_row f (get k t) else get k t)
  pub has-select :
      (k : String) (p : Row → Bool) (t : Rows) → has k (map key (select p t)) ≡ passes p (get k t)
  pub get-delete_where :
      (k : String) (p : Row → Bool) (t : Rows)
      → get k (delete_where p t) ≡ keep_if (not (passes p (get k t))) (get k t)
  pub get-bulk_delete :
      (k : String) (ks : List String) (t : Rows)
      → get k (bulk_delete ks t) ≡ keep_if (not (has k ks)) (get k t)
