-- ===== src/Pending/Order.antt =====
-- Placeholders over a run of sends and echoes, and how the operations change what is being sent.
use mathlib.Core.List.{reverse, reverse-cons, append_assoc, append-nil}
use nodetalk.Prelude.{
  ℕ, zero, suc, String, ◌≡◌, refl, ◌∙◌, ◌≢◌, Bool, true, false, ◌&&◌, ◌||◌, List, [], ◌∷◌, ◌++◌,
  Bool-cases, inl, inr, Option, none, some, arith, ◌==◌, eq_iff, if◌then◌else◌, any, All, map,
  filter, not,
}
use nodetalk.Pending.{
  Placeholder, Page, Cached, is_sending, add_pending_message, resolve_oldest_pending, fail_one,
  mark_pending_failed, remove_pending_message, is_pending_still_sending,
}
use nodetalk.Pending.Resolve.{
  all_messages, without_oldest, without_oldest_none, without_oldest-append,
  resolve_oldest_pending_lem,
}

-- The cache entry is absent, or has a page.
abbrev pub HasPage : Option Cached → Type 0
HasPage none = Unit
HasPage (some c) = c.pages ≢ []

abbrev pub has_page : Option Cached → Bool
has_page none = true
has_page (some c) = elim c.pages [ [] ↦ false | _ ∷ _ ↦ true ]

all_messages-add :
    (m : Placeholder) (c : Option Cached)
    → has_page c ≡ true
    → (all_messages (add_pending_message m c).0 ≡ m ∷ all_messages c)
      × (has_page (add_pending_message m c).0 ≡ true)
      × ((add_pending_message m c).1 ≡ false)
unfolding add_pending_message
all_messages-add m none h = (refl, refl, refl)
all_messages-add m (some c) h = (ground arith, ground arith, ground arith)

-- The messages sent one after the other, the earliest first; a send that throws sends nothing.
abbrev pub send_all : List Placeholder → Option Cached → Option Cached
send_all [] c = c
send_all (m ∷ ms) c = send_all ms (add_pending_message m c).0

-- That many echoes from the server.
abbrev pub echoes : ℕ → Option Cached → Option Cached
echoes zero c = c
echoes (suc n) c = echoes n (resolve_oldest_pending c)

abbrev pub drop : ℕ → Page → Page
drop zero ms = ms
drop (suc n) [] = []
drop (suc n) (m ∷ ms) = drop n ms

drop-nil : (n : ℕ) → drop n [] ≡ []
drop-nil zero = refl
drop-nil (suc n) = refl

all_messages-send_all :
    (ms : List Placeholder) (c : Option Cached)
    → has_page c ≡ true
    → all_messages (send_all ms c) ≡ reverse ms ++ all_messages c
all_messages-send_all [] c h = refl
all_messages-send_all (m ∷ ms) c h =
    let (e, h', _) = all_messages-add m c h in
    all_messages-send_all ms (add_pending_message m c).0 h'
    ∙ rw (e, reverse-cons m ms, append_assoc)

-- Without a page, every send throws and changes nothing.
pageless :
    (m : Placeholder) (c : Option Cached) → has_page c ≡ false → add_pending_message m c ≡ (c, true)
unfolding add_pending_message
pageless m none h = cc
pageless m (some c) h = ground arith

send_all-pageless :
    (ms : List Placeholder) (c : Option Cached) → has_page c ≡ false → send_all ms c ≡ c
send_all-pageless [] c h = refl
send_all-pageless (m ∷ ms) c h = rw (pageless m c h) (send_all-pageless ms c h)

without_oldest-reverse :
    (m : Placeholder) (ms xs : Page)
    → is_sending m ≡ true
    → any is_sending xs ≡ false
    → without_oldest (reverse (m ∷ ms) ++ xs) ≡ reverse ms ++ xs
unfolding without_oldest any
without_oldest-reverse m ms xs s h = rw (reverse-cons m ms) (
    ground (
      arith,
      without_oldest-append (reverse ms ++ m ∷ []) xs,
      without_oldest-append (reverse ms) (m ∷ []),
      append-nil (reverse ms),
    ))

all_messages-echoes :
    (n : ℕ) (c : Option Cached) (ms xs : Page)
    → all_messages c ≡ reverse ms ++ xs
    → All (λ m. is_sending m ≡ true) ms
    → any is_sending xs ≡ false
    → all_messages (echoes n c) ≡ reverse (drop n ms) ++ xs
all_messages-echoes zero c ms xs e s h = e
all_messages-echoes (suc n) c [] xs e s h =
    all_messages-echoes n (resolve_oldest_pending c) [] xs
      ((resolve_oldest_pending_lem c).0 ∙ rw e (without_oldest_none xs h)) tt h
    ∙ rw (drop-nil n)
all_messages-echoes (suc n) c (m ∷ ms) xs e s h =
    all_messages-echoes n (resolve_oldest_pending c) ms xs
      ((resolve_oldest_pending_lem c).0 ∙ rw e (without_oldest-reverse m ms xs s.0 h)) s.1 h

-- Messages are sent one after the other into a cache in which nothing is being sent. Where its entry
-- is absent or has a page: however many echoes follow, they resolve the placeholders in the order in
-- which the messages were sent; the placeholders of the later messages stay, newest first, and the older
-- messages are untouched. Where its entry has no page, each send throws and leaves the entry as it is,
-- so that no placeholder is ever shown.
pub echoes-send_all :
    (m : Placeholder) (ms : List Placeholder) (n : ℕ) (c : Option Cached)
    → All (λ m. is_sending m ≡ true) ms
    → any is_sending (all_messages c) ≡ false
    → ((add_pending_message m c).1 ≡ not (has_page c))
      × (all_messages (echoes n (send_all ms c))
          ≡ (if has_page c then reverse (drop n ms) else []) ++ all_messages c)
      × ((if has_page c then c else send_all ms c) ≡ c)
echoes-send_all m ms n c s h = elim (Bool-cases (has_page c)) [
  | inl p ↦ (
    rw p (all_messages-add m c p).2,
    rw p (
        all_messages-echoes n (send_all ms c) ms (all_messages c) (all_messages-send_all ms c p) s
          h),
    rw p refl,
  )
  | inr p ↦ (
    rw (p, pageless m c p) refl,
    rw (p, send_all-pageless ms c p)
        (all_messages-echoes n c [] (all_messages c) refl tt h ∙ rw (drop-nil n) refl),
    rw p (send_all-pageless ms c p),
  )
]

abbrev awaits : String → Placeholder → Bool
awaits j m = m.id == j && is_sending m

any-map {ℓ} :
    {A : Type ℓ} (p : A → Bool) (f : A → A) (b : Bool)
    → ((x : A) → p (f x) ≡ (if b then false else p x))
    → (xs : List A) → any p (map f xs) ≡ (if b then false else any p xs)
unfolding any
any-map p f b h [] = ground arith
any-map p f b h (x ∷ xs) = ground (arith, h x, any-map p f b h xs)

awaits-fail_one :
    (i j : String) (m : Placeholder)
    → awaits j (fail_one i m) ≡ (if i == j then false else awaits j m)
unfolding fail_one
awaits-fail_one i j m = ground (arith, eq_iff i j, eq_iff m.id i, eq_iff m.id j)

any-awaits-filter :
    (i j : String) (page : Page)
    → any (awaits j) (filter (λ m. not (m.id == i)) page)
      ≡ (if i == j then false else any (awaits j) page)
unfolding any filter
any-awaits-filter i j [] = ground arith
any-awaits-filter i j (m ∷ page) =
    ground (arith, eq_iff i j, eq_iff m.id i, eq_iff m.id j, any-awaits-filter i j page)

any_awaits-add :
    (j : String) (m : Placeholder) (c : Option Cached)
    → HasPage c
    → is_pending_still_sending j (add_pending_message m c).0
      ≡ (awaits j m || is_pending_still_sending j c)
unfolding is_pending_still_sending add_pending_message any
any_awaits-add j m none p = ground arith
any_awaits-add j m (some c) p = ground arith

-- What `is_pending_still_sending` answers after each operation: marking or removing a message makes
-- the answer false for it and keeps it for all others; adding one makes it true for that one.
pub is_pending_still_sending_after :
    (i j : String) (m : Placeholder) (c : Option Cached)
    → HasPage c
    → (is_pending_still_sending j (mark_pending_failed i c)
        ≡ (if i == j then false else is_pending_still_sending j c))
      × (is_pending_still_sending j (remove_pending_message i c)
          ≡ (if i == j then false else is_pending_still_sending j c))
      × (is_pending_still_sending j (add_pending_message m c).0
          ≡ ((m.id == j && is_sending m) || is_pending_still_sending j c))
unfolding is_pending_still_sending mark_pending_failed remove_pending_message
is_pending_still_sending_after i j m none p =
    (ground arith, ground arith, any_awaits-add j m none p)
is_pending_still_sending_after i j m (some c) p = (
  any-map _ _ (i == j) (any-map _ _ (i == j) (awaits-fail_one i j)) c.pages,
  any-map _ _ (i == j) (any-awaits-filter i j) c.pages,
  any_awaits-add j m (some c) p,
)
