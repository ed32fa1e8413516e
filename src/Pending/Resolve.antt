-- ===== src/Pending/Resolve.antt =====
-- `resolveOldestPending` against a direct description of what it removes.
use nodetalk.Prelude.{
  ℕ, suc, ◌+◌, ◌<◌, ◌≡◌, refl, sym, ap, ◌∙◌, true, false, List, [], ◌∷◌, ◌++◌, Option, none, some,
  arith, is_some, if◌then◌else◌, any, any-append, length, Option-cases, inl, inr,
}
use nodetalk.Pending.{
  Page, Cached, is_sending, scan_page, scan_pages, drop_index, drop_in_page, resolve_pages,
  resolve_oldest_pending,
}

-- The messages of all pages, newest first.
abbrev pub flat : List Page → Page
flat [] = []
flat (page ∷ pages) = page ++ flat pages

-- Without the last entry that is being sent, which is the oldest.
unfoldable pub without_oldest : Page → Page
unfolding any
without_oldest [] = []
without_oldest (x ∷ xs) =
    if any is_sending xs then x ∷ without_oldest xs else if is_sending x then xs else x ∷ xs

pub without_oldest_none : (xs : Page) → any is_sending xs ≡ false → without_oldest xs ≡ xs
unfolding without_oldest any
without_oldest_none [] h = refl
without_oldest_none (x ∷ xs) h = ground arith

last_sending : Page → Option ℕ
last_sending [] = none
last_sending (x ∷ xs) = elim (last_sending xs) [
  | some i ↦ some (suc i)
  | none ↦ if is_sending x then some 0 else none
]

abbrev at_page : ℕ → ℕ → Option (ℕ × ℕ) → Option ℕ → Option (ℕ × ℕ)
at_page p m target none = target
at_page p m target (some i) = some (p, m + i)

scan_page_lem :
    (p m : ℕ) (page : Page) (target : Option (ℕ × ℕ))
    → scan_page p m page target ≡ at_page p m target (last_sending page)
unfolding scan_page last_sending
scan_page_lem p m [] target = refl
scan_page_lem p m (x ∷ xs) target =
    ground (arith, scan_page_lem p (suc m) xs (if is_sending x then some (p, m) else target))

last_sending-any : (xs : Page) → is_some (last_sending xs) ≡ any is_sending xs
unfolding last_sending any
last_sending-any [] = refl
last_sending-any (x ∷ xs) = ground (arith, last_sending-any xs)

drop_index_past : (m target : ℕ) (xs : Page) → target < m → drop_index m target xs ≡ xs
unfolding drop_index
drop_index_past m target [] h = refl
drop_index_past m target (x ∷ xs) h = ground (arith, drop_index_past (suc m) target xs)

drop_index_lem :
    (m target i : ℕ) (xs : Page)
    → last_sending xs ≡ some i
    → target ≡ m + i
    → drop_index m target xs ≡ without_oldest xs
unfolding drop_index last_sending without_oldest
drop_index_lem m target i [] h e = cc
drop_index_lem m target i (x ∷ xs) h e = elim (Option-cases (last_sending xs)) [
  | inl l ↦ ground (arith, drop_index_past (suc m) target xs, last_sending-any xs)
  | inr (j, l) ↦ ground (arith, drop_index_lem (suc m) target j xs l, last_sending-any xs)
]

-- Where the last hit of the loops is, counted from the first page.
last_at : List Page → Option (ℕ × ℕ)
last_at [] = none
last_at (page ∷ pages) = elim (last_at pages) [
  | some (k, i) ↦ some (suc k, i)
  | none ↦ at_page 0 0 none (last_sending page)
]

abbrev from_page : ℕ → Option (ℕ × ℕ) → Option (ℕ × ℕ) → Option (ℕ × ℕ)
from_page p target none = target
from_page p target (some (k, i)) = some (p + k, i)

scan_pages_lem :
    (p : ℕ) (pages : List Page) (target : Option (ℕ × ℕ))
    → scan_pages p pages target ≡ from_page p target (last_at pages)
unfolding scan_pages last_at
scan_pages_lem p [] target = refl
scan_pages_lem p (page ∷ pages) target =
    ground (
      arith,
      scan_pages_lem (suc p) pages (scan_page p 0 page target),
      scan_page_lem p 0 page target,
    )

last_at-any : (pages : List Page) → is_some (last_at pages) ≡ any is_sending (flat pages)
unfolding last_at any
last_at-any [] = refl
last_at-any (page ∷ pages) =
    ground
      (arith, any-append is_sending page (flat pages), last_at-any pages, last_sending-any page)

pub without_oldest-append :
    (xs ys : Page)
    → without_oldest (xs ++ ys)
      ≡ (if any is_sending ys then xs ++ without_oldest ys else without_oldest xs ++ ys)
unfolding without_oldest any
without_oldest-append [] ys = ground (arith, without_oldest_none ys)
without_oldest-append (x ∷ xs) ys =
    ground (arith, without_oldest-append xs ys, any-append is_sending xs ys)

drop_in_page_past :
    (p target i : ℕ) (pages : List Page) → target < p → drop_in_page p (target, i) pages ≡ pages
unfolding drop_in_page
drop_in_page_past p target i [] h = refl
drop_in_page_past p target i (page ∷ pages) h =
    ground (arith, drop_in_page_past (suc p) target i pages)

drop_in_page_later :
    (p target i : ℕ) (page : Page) (pages : List Page)
    → p < target
    → drop_in_page p (target, i) (page ∷ pages) ≡ page ∷ drop_in_page (suc p) (target, i) pages
unfolding drop_in_page
drop_in_page_later p target i page pages h = ground arith

without_oldest_later :
    (xs ys : Page) → any is_sending ys ≡ true → without_oldest (xs ++ ys) ≡ xs ++ without_oldest ys
without_oldest_later xs ys h = rw (without_oldest-append xs ys, h)

last_at_later :
    {k i : ℕ} (page : Page) (pages : List Page) (t : ℕ × ℕ)
    → last_at pages ≡ some t
    → last_at (page ∷ pages) ≡ some (k, i)
    → (k ≡ suc t.0) × (i ≡ t.1) × (any is_sending (flat pages) ≡ true)
unfolding last_at
last_at_later page pages t l h = ground (arith, last_at-any pages)

drop_in_page_lem :
    (p target k i : ℕ) (pages : List Page)
    → last_at pages ≡ some (k, i)
    → target ≡ p + k
    → flat (drop_in_page p (target, i) pages) ≡ without_oldest (flat pages)
unfolding drop_in_page last_at
drop_in_page_lem p target k i [] h e = cc
drop_in_page_lem p target k i (page ∷ pages) h e = elim (Option-cases (last_at pages)) [
  | inl l ↦ ground (
    arith,
    drop_in_page_past (suc p) target i pages,
    drop_index_lem 0 i i page,
    without_oldest-append page (flat pages),
    last_at-any pages,
  )
  | inr (t, l) ↦
      let (ek, ei, some_later) = last_at_later {k = k} {i = i} page pages t l h in
      ap flat (drop_in_page_later p target i page pages (omega arith))
      ∙ ap (◌++◌ page) (drop_in_page_lem (suc p) target t.0 i pages (rw ei l) (omega arith))
      ∙ sym (without_oldest_later page (flat pages) some_later)
]

flat-resolve_pages : (pages : List Page) → flat (resolve_pages pages) ≡ without_oldest (flat pages)
unfolding resolve_pages
flat-resolve_pages pages = elim (Option-cases (last_at pages)) [
  | inl l ↦
      ground
        (arith, scan_pages_lem 0 pages none, last_at-any pages, without_oldest_none (flat pages))
  | inr (t, l) ↦ ground (arith, scan_pages_lem 0 pages none, drop_in_page_lem 0 t.0 t.0 t.1 pages l)
]

length-drop_in_page :
    (p : ℕ) (t : ℕ × ℕ) (pages : List Page) → length (drop_in_page p t pages) ≡ length pages
unfolding drop_in_page
length-drop_in_page p t [] = refl
length-drop_in_page p (target, m) (page ∷ pages) =
    ap suc (length-drop_in_page (suc p) (target, m) pages)

length-resolve_pages : (pages : List Page) → length (resolve_pages pages) ≡ length pages
unfolding resolve_pages
length-resolve_pages pages = elim (Option-cases (scan_pages 0 pages none)) [
  | inl l ↦ rw (l, resolve_pages)
  | inr (t, l) ↦ rw (l, resolve_pages) (length-drop_in_page 0 t pages)
]

-- All cached messages of the channel, newest first.
abbrev pub all_messages : Option Cached → Page
all_messages none = []
all_messages (some c) = flat c.pages

abbrev pub page_count : Option Cached → ℕ
page_count none = 0
page_count (some c) = length c.pages

-- `resolve_oldest_pending` takes the oldest message that is being sent out of the cache, leaves all
-- others in their order, and keeps the number of pages.
pub resolve_oldest_pending_lem :
    (c : Option Cached)
    → (all_messages (resolve_oldest_pending c) ≡ without_oldest (all_messages c))
      × (page_count (resolve_oldest_pending c) ≡ page_count c)
unfolding resolve_oldest_pending without_oldest
resolve_oldest_pending_lem none = (refl, refl)
resolve_oldest_pending_lem (some c) = (flat-resolve_pages c.pages, length-resolve_pages c.pages)
