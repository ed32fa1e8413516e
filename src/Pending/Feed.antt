-- ===== src/Pending/Feed.antt =====
-- client-web/src/components/ChatArea.tsx: the updates that the open channel makes to its cached pages
-- when messages come in, change or go, and when it is filled from IndexedDB.
use mathlib.Core.List.{reverse}
use nodetalk.Prelude.{
  String, ◌≡◌, refl, ◌∙◌, Bool, true, false, not, List, [], ◌∷◌, map, Option, none, some, arith,
  ◌==◌, eq_refl, if◌then◌else◌, any, any-append, filter, Bool-cases, inl, inr,
}
use nodetalk.Pending.{Placeholder, Page, Cached, add_pending_message, resolve_oldest_pending}
use nodetalk.Pending.Resolve.{all_messages, flat, without_oldest, resolve_oldest_pending_lem}
use nodetalk.Pending.Order.{HasPage}

-- `cached` as `getCachedMessages` returns it, oldest first.
pub preload : Page → Option Cached → Option Cached
preload [] old = old
preload (x ∷ xs) none = some (record { pages = reverse (x ∷ xs) ∷ []; page_params = none ∷ [] })
preload (x ∷ xs) (some old) = elim old.pages [
  | [] ↦ some (record { pages = reverse (x ∷ xs) ∷ []; page_params = none ∷ [] })
  | page ∷ rest ↦ some old
]

-- As with `add_pending_message`, the entry afterwards and whether the updater throws.
pub add_message : Placeholder → Option Cached → Option Cached × Bool
add_message m none = (some (record { pages = (m ∷ []) ∷ []; page_params = none ∷ [] }), false)
add_message m (some old) =
    if any (any (λ x. x.id == m.id)) old.pages then (some old, false) else (elim old.pages [
      | [] ↦ (some old, true)
      | page ∷ rest ↦ (some (record old { pages = (m ∷ page) ∷ rest }), false)
    ])

pub update_message : Placeholder → Option Cached → Option Cached
update_message m none = some (record { pages = (m ∷ []) ∷ []; page_params = none ∷ [] })
update_message m (some old) =
    some (record old { pages = map (map (λ x. if x.id == m.id then m else x)) old.pages })

pub delete_message : String → Option Cached → Option Cached
delete_message message_id none = some (record { pages = []; page_params = [] })
delete_message message_id (some old) =
    some (record old { pages = map (filter (λ x. not (x.id == message_id))) old.pages })

abbrev pub has_message : String → Page → Bool
has_message id = any (λ x. x.id == id)

any-flat :
    (id : String) (pages : List Page) → any (has_message id) pages ≡ has_message id (flat pages)
unfolding any
any-flat id [] = refl
any-flat id (page ∷ pages) =
    ground
      (arith, any-append (λ (x : Placeholder). x.id == id) page (flat pages), any-flat id pages)

-- A message is added to the front of the newest page if no message with its id is cached, and else
-- nothing changes; a second arrival of the same message changes nothing.
pub add_message_lem :
    (m : Placeholder) (c : Option Cached)
    → HasPage c
    → (all_messages (add_message m c).0
        ≡ (if has_message m.id (all_messages c) then all_messages c else m ∷ all_messages c))
      × (add_message m (add_message m c).0 ≡ ((add_message m c).0, false))
unfolding add_message any
add_message_lem m none h = (refl, rw (eq_refl m.id))
add_message_lem m (some c) h = elim (Bool-cases (any (has_message m.id) c.pages)) [
  | inl e ↦ (ground (arith, any-flat m.id c.pages), ground arith)
  | inr e ↦ (ground (arith, any-flat m.id c.pages), ground (arith, eq_refl m.id))
]

resolve-HasPage : (c : Option Cached) → HasPage c → HasPage (resolve_oldest_pending c)
unfolding resolve_oldest_pending
resolve-HasPage none h = tt
resolve-HasPage (some c) h = let n = (resolve_oldest_pending_lem (some c)).1 in λ e. ground arith

-- The server's echo of an own message: the oldest placeholder that is being sent goes, and the message
-- stands in front of what is left.
pub own_echo :
    (m : Placeholder) (c : Option Cached)
    → HasPage c
    → has_message m.id (without_oldest (all_messages c)) ≡ false
    → all_messages (add_message m (resolve_oldest_pending c)).0
      ≡ m ∷ without_oldest (all_messages c)
own_echo m c h f =
    let e = (resolve_oldest_pending_lem c).0 in
    (add_message_lem m (resolve_oldest_pending c) (resolve-HasPage c h)).0 ∙ rw (e, f)

-- Deleting a message of a channel that has no cache entry leaves an entry without a page, and on that
-- both sending a message and receiving one throw.
pub delete_uncached_throws :
    (id : String) (m : Placeholder)
    → (add_pending_message m (delete_message id none) ≡ (delete_message id none, true))
      × (add_message m (delete_message id none) ≡ (delete_message id none, true))
unfolding delete_message add_pending_message add_message any
delete_uncached_throws id m = (refl, refl)
