-- ===== src/Channels/Listed.antt =====
-- The active channel against its entry in the list, and the changes to the list that keep them in step.
use nodetalk.Prelude.{
  ◌≡◌, refl, ◌∙◌, sym, ap, String, not, List, [], ◌∷◌, map, Option, none, some, arith, ◌==◌, eq_iff,
  if◌then◌else◌, filter, find,
}
use nodetalk.Api.{Channel}
use nodetalk.Channels.{Store, has_id, on_active, next_active}

-- What a channel is, without its unread count and its last message.
abbrev pub facts : Channel → Channel
facts c = record c {
  unread_count = none;
  last_message_at = none;
  last_message_id = none;
  last_message_preview = none;
}

abbrev pub channel_at : String → Store → Option Channel
channel_at id s = find (has_id id) s.channels

pub find-map :
    (f : Channel → Channel) (j : String) (cs : List Channel)
    → ((c : Channel) → (f c).id ≡ c.id)
    → find (has_id j) (map f cs) ≡ on_active f (find (has_id j) cs)
unfolding find
find-map f j [] h = refl
find-map f j (c ∷ cs) h =
    let same : has_id j (f c) ≡ has_id j c = ap (λ i. i == j) (h c) in
    ground (arith, find-map f j cs h)

pub find-id :
    (j : String) (cs : List Channel) {c : Channel} → find (has_id j) cs ≡ some c → c.id ≡ j
unfolding find
find-id j [] h = cc
find-id j (d ∷ cs) {c} h = ground (arith, eq_iff d.id j, find-id j cs {c = c})

-- The active channel is the entry of the list with its id, but for its unread count and last message.
abbrev pub ActiveListed : List Channel → Option Channel → Type 0
ActiveListed cs none = Unit
ActiveListed cs (some a) = on_active facts (find (has_id a.id) cs) ≡ some (facts a)

abbrev pub IsSynced : Store → Type 0
IsSynced s = ActiveListed s.channels s.active_channel

-- An action that changes nothing but what `facts` leaves out.
pub light-IsSynced :
    (f : Channel → Channel) (cs : List Channel) (a : Option Channel)
    → ((c : Channel) → (f c).id ≡ c.id)
    → ((c : Channel) → facts (f c) ≡ facts c)
    → ActiveListed cs a
    → ActiveListed (map f cs) a
light-IsSynced f cs none hi hf v = tt
light-IsSynced f cs (some a) hi hf v =
    rw (find-map f a.id cs hi) (on_active-facts (find (has_id a.id) cs) ∙ v)
  where
    on_active-facts : (o : Option Channel) → on_active facts (on_active f o) ≡ on_active facts o
    on_active-facts none = refl
    on_active-facts (some c) = ap some (hf c)

-- An action that does the same to the active channel as to the list.
pub both-IsSynced :
    (f : Channel → Channel) (cs : List Channel) (a : Option Channel)
    → ((c : Channel) → (f c).id ≡ c.id)
    → ((c : Channel) → facts (f c) ≡ f (facts c))
    → ActiveListed cs a
    → ActiveListed (map f cs) (on_active f a)
both-IsSynced f cs none hi hf v = tt
both-IsSynced f cs (some a) hi hf v =
    ap (λ i. on_active facts (find (has_id i) (map f cs))) (hi a)
    ∙ ap (on_active facts) (find-map f a.id cs hi)
    ∙ on_active-facts (find (has_id a.id) cs)
    ∙ ap (on_active f) v
    ∙ ap some (sym (hf a))
  where
    on_active-facts :
        (o : Option Channel) → on_active facts (on_active f o) ≡ on_active f (on_active facts o)
    on_active-facts none = refl
    on_active-facts (some c) = ap some (hf c)

pub next_active-IsSynced :
    (list : List Channel) (a : Option Channel) → ActiveListed list (next_active list a)
next_active-IsSynced list none = tt
next_active-IsSynced list (some a) = listed (find (has_id a.id) list) refl
  where
    listed : (o : Option Channel) → find (has_id a.id) list ≡ o → ActiveListed list o
    listed none e = tt
    listed (some c) e =
        ap (λ i. on_active facts (find (has_id i) list)) (find-id a.id list e)
        ∙ ap (on_active facts) e

pub find-filter :
    (i j : String) (cs : List Channel)
    → find (has_id j) (filter (λ c. not (c.id == i)) cs)
      ≡ (if i == j then none else find (has_id j) cs)
unfolding find filter
find-filter i j [] = ground arith
find-filter i j (c ∷ cs) =
    ground (arith, eq_iff c.id i, eq_iff c.id j, eq_iff i j, find-filter i j cs)
