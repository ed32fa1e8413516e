-- ===== src/Channels/Unread.antt =====
-- Unread counts: a message counts one up, and opening the channel clears the count.
use nodetalk.Prelude.{
  ℕ, ◌+◌, ◌≡◌, refl, sym, ◌∙◌, ap, String, true, List, map, Option, none, some, arith, ◌==◌, eq_iff,
  eq_refl, if◌then◌else◌, find, Bool-cases, Option-cases, inl, inr,
}
use nodetalk.Api.{Channel}
use nodetalk.Channels.{
  Store, has_id, unread, set_active_channel, increment_unread, bump_last_message, read_one, stays,
}
use nodetalk.Channels.Listed.{channel_at, find-map, find-id}

abbrev pub on_count : (ℕ → ℕ) → Option ℕ → Option ℕ
on_count f none = none
on_count f (some n) = some (f n)

abbrev pub count_of : Option Channel → Option ℕ
count_of none = none
count_of (some c) = some (unread c)

-- The unread count of the channel with this id, if there is one.
abbrev pub unread_at : String → Store → Option ℕ
unread_at j s = count_of (channel_at j s)

-- A map that changes the count of one channel.
count-map :
    (f : Channel → Channel) (g : ℕ → ℕ) (i j : String) (cs : List Channel)
    → ((c : Channel) → (f c).id ≡ c.id)
    → ((c : Channel) → unread (f c) ≡ (if c.id == i then g (unread c) else unread c))
    → count_of (find (has_id j) (map f cs))
      ≡ on_count (λ n. if i == j then g n else n) (count_of (find (has_id j) cs))
count-map f g i j cs hi hf = elim (Option-cases (find (has_id j) cs)) [
  | inl e ↦ ap count_of (find-map f j cs hi) ∙ ground (arith, e)
  | inr (c, e) ↦
      ap count_of (find-map f j cs hi)
      ∙ ground (arith, e, hf c, find-id j cs {c = c} e, eq_iff c.id i, eq_iff i j)
]

pub increment_unread_at :
    (i j : String) (s : Store)
    → unread_at j (increment_unread i s)
      ≡ on_count (λ n. if i == j then n + 1 else n) (unread_at j s)
unfolding increment_unread
increment_unread_at i j s =
    count-map _ (λ n. n + 1) i j s.channels (λ c. ground arith) (λ c. ground arith)

pub bump_unread_at :
    (i j timestamp : String) (preview message_id : Option String) (s : Store)
    → unread_at j (bump_last_message i timestamp preview message_id s) ≡ unread_at j s
unfolding bump_last_message
bump_unread_at i j timestamp preview message_id s =
    count-map _ (λ n. n) i j s.channels (λ c. ground arith) (λ c. ground arith) ∙ ground arith

stays_unread :
    (ch : Channel) (s : Store)
    → stays (some ch) s ≡ true
    → on_count (λ n. 0) (unread_at ch.id s) ≡ unread_at ch.id s
unfolding stays
stays_unread ch s e = ground arith

stays-unread_at :
    (ch : Channel) (j : String) (s : Store)
    → stays (some ch) s ≡ true
    → unread_at j s ≡ on_count (λ n. if ch.id == j then 0 else n) (unread_at j s)
stays-unread_at ch j s e = elim (Bool-cases (ch.id == j)) [
  | inl h ↦ rw h (
      let same : ch.id ≡ j = (eq_iff ch.id j).0 h in
      ap (λ i. unread_at i s) (sym same)
      ∙ sym (stays_unread ch s e)
      ∙ ap (λ i. on_count (λ n. 0) (unread_at i s)) same)
  | inr h ↦ rw h (ground arith)
]

set_active_unread_at :
    (ch : Channel) (j : String) (s : Store)
    → unread_at j (set_active_channel (some ch) s).0
      ≡ on_count (λ n. if ch.id == j then 0 else n) (unread_at j s)
unfolding set_active_channel
set_active_unread_at ch j s = elim (Bool-cases (stays (some ch) s)) [
  | inl e ↦ rw e (stays-unread_at ch j s e)
  | inr e ↦ ground (
    arith,
    count-map (read_one ch) (λ n. 0) ch.id j s.channels (λ c. ground arith) (λ c. ground arith),
  )
]

-- What the unread count of each channel is after an action, where `none` stands for no such channel:
-- a message that comes in for channel i counts one up there and nowhere else; opening a channel sends
-- a read receipt for it and clears its count and no other; a new last message changes no count.
pub unread_counts :
    (i j timestamp : String) (preview message_id : Option String) (ch : Channel) (s : Store)
    → (unread_at j (increment_unread i s)
        ≡ on_count (λ n. if i == j then n + 1 else n) (unread_at j s))
      × (unread_at j (set_active_channel (some ch) s).0
          ≡ on_count (λ n. if ch.id == j then 0 else n) (unread_at j s))
      × ((set_active_channel (some ch) s).1 ≡ some ch.id)
      × (unread_at j (bump_last_message i timestamp preview message_id s) ≡ unread_at j s)
unfolding set_active_channel
unread_counts i j timestamp preview message_id ch s = (
  increment_unread_at i j s,
  set_active_unread_at ch j s,
  refl,
  bump_unread_at i j timestamp preview message_id s,
)

stays_after :
    (ch : Channel) (s : Store)
    → on_count (λ n. 0) (unread_at ch.id s) ≡ unread_at ch.id s
    → stays (some ch) (record s { active_channel = some ch }) ≡ true
unfolding stays
stays_after ch s h = ground (arith, eq_refl ch.id)

-- Opening the channel that is open already is the same as opening it once.
pub set_active_channel_idempotent :
    (ch : Channel) (s : Store)
    → (set_active_channel (some ch) (set_active_channel (some ch) s).0).0
      ≡ (set_active_channel (some ch) s).0
unfolding set_active_channel
set_active_channel_idempotent ch s = elim (Bool-cases (stays (some ch) s)) [
  | inl e ↦ rw (e, e)
  | inr e ↦
      let opened = record s { channels = map (read_one ch) s.channels } in
      let zero : unread_at ch.id opened ≡ on_count (λ n. 0) (unread_at ch.id s) =
        count-map (read_one ch) (λ n. 0) ch.id ch.id s.channels (λ c. ground arith)
          (λ c. ground arith)
        ∙ rw (eq_refl ch.id) in
      let again : stays (some ch) (record opened { active_channel = some ch }) ≡ true =
        stays_after ch opened (ground (arith, zero)) in
      rw (e, again)
]
