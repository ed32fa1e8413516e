-- ===== src/Pending.antt =====
-- client-web/src/utils/pendingMessages.ts: the placeholders of messages that are being sent. Each
-- function is the updater that the source hands to `setQueryData`, on the cached pages of one
-- channel; pages and the messages of a page stand newest first.
pub mod Resolve
pub mod Order
pub mod Feed
mod Tests
use nodetalk.Prelude.{
  ℕ, suc, String, Bool, true, false, not, ◌&&◌, List, [], ◌∷◌, map, Option, none, some, nat_beq,
  ◌==◌, if◌then◌else◌, filter, any,
}
use nodetalk.Api.{Message, Delivery, sending, failed}

pub record Placeholder : Type 0 where
  pub message : Message
  pub open message use *
  pub text : Option String
  -- `typeof msg._retry === 'function'`
  pub has_retry : Bool

abbrev pub Page : Type 0
Page = List Placeholder

pub record Cached : Type 0 where
  pub pages : List Page
  pub page_params : List (Option String)

abbrev pub is_sending : Placeholder → Bool
is_sending m = elim m.pending [ some sending ↦ true | _ ↦ false ]

-- The entry afterwards, and whether the updater throws: the spread of `newPages[0]` does where there is
-- no page, which leaves the entry as it is.
pub add_pending_message : Placeholder → Option Cached → Option Cached × Bool
add_pending_message m none =
    (some (record { pages = (m ∷ []) ∷ []; page_params = none ∷ [] }), false)
add_pending_message m (some old) = elim old.pages [
  | [] ↦ (some old, true)
  | page ∷ rest ↦ (some (record old { pages = (m ∷ page) ∷ rest }), false)
]

fail_one : String → Placeholder → Placeholder
fail_one local_id m =
    if m.id == local_id
    then record m { message = record (m.message) { pending = some failed } }
    else m

over_pages : (Page → Page) → Option Cached → Option Cached
over_pages f none = none
over_pages f (some old) = some (record old { pages = map f old.pages })

pub mark_pending_failed : String → Option Cached → Option Cached
unfolding over_pages
mark_pending_failed local_id = over_pages (map (fail_one local_id))

pub remove_pending_message : String → Option Cached → Option Cached
unfolding over_pages
remove_pending_message local_id = over_pages (filter (λ m. not (m.id == local_id)))

pub is_pending_still_sending : String → Option Cached → Bool
is_pending_still_sending local_id none = false
is_pending_still_sending local_id (some d) =
    any (any (λ m. m.id == local_id && is_sending m)) d.pages

-- The two loops of `resolveOldestPending`: each hit overwrites the target, which starts at -1.
scan_page : ℕ → ℕ → Page → Option (ℕ × ℕ) → Option (ℕ × ℕ)
scan_page p m [] target = target
scan_page p m (x ∷ xs) target =
    scan_page p (suc m) xs (if is_sending x then some (p, m) else target)

scan_pages : ℕ → List Page → Option (ℕ × ℕ) → Option (ℕ × ℕ)
unfolding scan_page
scan_pages p [] target = target
scan_pages p (page ∷ pages) target = scan_pages (suc p) pages (scan_page p 0 page target)

-- `page.filter((_, m) => m !== target)`, counting from `m`
drop_index : ℕ → ℕ → Page → Page
drop_index m target [] = []
drop_index m target (x ∷ xs) =
    if nat_beq m target then drop_index (suc m) target xs else x ∷ drop_index (suc m) target xs

-- `pages.map((page, p) => p === targetPageIdx ? … : page)`, counting from `p`
drop_in_page : ℕ → ℕ × ℕ → List Page → List Page
unfolding drop_index
drop_in_page p (target, m) [] = []
drop_in_page p (target, m) (page ∷ pages) =
    (if nat_beq p target then drop_index 0 m page else page)
    ∷ drop_in_page (suc p) (target, m) pages

resolve_pages : List Page → List Page
unfolding scan_pages drop_in_page
resolve_pages pages = elim (scan_pages 0 pages none) [
  | none ↦ pages
  | some target ↦ drop_in_page 0 target pages
]

pub resolve_oldest_pending : Option Cached → Option Cached
resolve_oldest_pending none = none
resolve_oldest_pending (some old) = some (record old { pages = resolve_pages old.pages })
