-- ===== src/Channels/Members.antt =====
-- The active channel and its entry in the list, over every action of the store.
use nodetalk.Prelude.{
  ℕ, ◌≡◌, refl, ◌∙◌, ap, String, false, not, List, [], ◌∷◌, Option, none, some, arith, ◌==◌, eq_iff,
  if◌then◌else◌, filter, any, find, inl, inr, Bool-cases, nat_beq, is_some,
}
use nodetalk.Api.{Channel}
use nodetalk.Channels.{
  Store, Settings, initial, has_id, on_active, next_active, refresh_start, refresh_response,
  refresh_error, set_active_channel, increment_unread, bump_last_message, set_last_message_preview,
  clear_last_message_if_current, create_channel, update_member_status, update_member_avatar,
  update_channel_settings, remove_channel, reset_channels, read_one, stays,
}
use nodetalk.Channels.Listed.{
  facts, ActiveListed, IsSynced, light-IsSynced, both-IsSynced, next_active-IsSynced, find-filter,
}

-- What the user and the socket do to the store.
pub data Action : Type 0 where
  refresh_starts : Action
  refresh_responds : ℕ → List Channel → Action
  refresh_errs : ℕ → Action
  sets_active : Option Channel → Action
  increments_unread : String → Action
  bumps : String → String → Option String → Option String → Action
  sets_preview : String → Option String → Action
  clears_last : String → String → Action
  creates : Channel → Action
  status_changes : String → String → Action
  avatar_changes : String → String → Action
  settings_change : String → Settings → Action
  removes : String → Action
  resets : Action

unfoldable pub act : Action → Store → Store
unfolding refresh_start refresh_response refresh_error set_active_channel increment_unread
    bump_last_message set_last_message_preview clear_last_message_if_current create_channel
    update_member_status update_member_avatar update_channel_settings remove_channel reset_channels
act refresh_starts s = refresh_start s
act (refresh_responds seq list) s = (refresh_response seq list s).0
act (refresh_errs seq) s = refresh_error seq s
act (sets_active ch) s = (set_active_channel ch s).0
act (increments_unread id) s = increment_unread id s
act (bumps id timestamp preview message_id) s = bump_last_message id timestamp preview message_id s
act (sets_preview id preview) s = set_last_message_preview id preview s
act (clears_last id message_id) s = clear_last_message_if_current id message_id s
act (creates ch) s = create_channel ch s
act (status_changes user_id status) s = update_member_status user_id status s
act (avatar_changes user_id avatar_id) s = update_member_avatar user_id avatar_id s
act (settings_change id settings) s = update_channel_settings id settings s
act (removes id) s = remove_channel id s
act resets s = reset_channels s

-- The user picks a channel that the list shows.
abbrev pub IsPicked : Action → Store → Type 0
IsPicked (sets_active ch) s = ActiveListed s.channels ch
IsPicked _ s = Unit

same-IsSynced :
    (s t : Store)
    → t.channels ≡ s.channels
    → t.active_channel ≡ s.active_channel
    → IsSynced s
    → IsSynced t
same-IsSynced s t e f v = rw (e, f) v

refresh_response-IsSynced :
    (seq : ℕ) (list : List Channel) (s : Store)
    → IsSynced s
    → IsSynced (refresh_response seq list s).0
unfolding refresh_response
refresh_response-IsSynced seq list s v = elim (Bool-cases (nat_beq seq s.refresh_seq)) [
  | inl e ↦
      same-IsSynced
        (record s { channels = list; active_channel = next_active list s.active_channel })
        (refresh_response seq list s).0 (ground arith) (ground arith)
        (next_active-IsSynced list s.active_channel)
  | inr e ↦ same-IsSynced s (refresh_response seq list s).0 (ground arith) (ground arith) v
]

refresh_error-IsSynced : (seq : ℕ) (s : Store) → IsSynced s → IsSynced (refresh_error seq s)
unfolding refresh_error
refresh_error-IsSynced seq s v =
    same-IsSynced s (refresh_error seq s) (ground arith) (ground arith) v

set_active_channel-IsSynced :
    (ch : Option Channel) (s : Store)
    → ActiveListed s.channels ch
    → IsSynced s
    → IsSynced (set_active_channel ch s).0
unfolding set_active_channel
set_active_channel-IsSynced none s p v = elim (Bool-cases (stays none s)) [
  | inl e ↦ rw e v
  | inr e ↦ rw e tt
]
set_active_channel-IsSynced (some ch) s p v = elim (Bool-cases (stays (some ch) s)) [
  | inl e ↦ rw e v
  | inr e ↦
      rw e (
        light-IsSynced (read_one ch) s.channels (some ch) (λ c. ground arith) (λ c. ground arith) p)
]

any-find : (j : String) (cs : List Channel) → any (has_id j) cs ≡ is_some (find (has_id j) cs)
unfolding any find
any-find j [] = refl
any-find j (c ∷ cs) = ground (arith, any-find j cs)

-- A channel with a new id in front of the list hides no entry.
cons-ActiveListed :
    (ch : Channel) (cs : List Channel) (a : Option Channel)
    → any (has_id ch.id) cs ≡ false
    → ActiveListed cs a
    → ActiveListed (ch ∷ cs) a
unfolding find
cons-ActiveListed ch cs none h v = tt
cons-ActiveListed ch cs (some a) h v =
    ground (arith, eq_iff ch.id a.id, any-find ch.id cs, any-find a.id cs)

create_channel-IsSynced : (ch : Channel) (s : Store) → IsSynced s → IsSynced (create_channel ch s)
unfolding create_channel
create_channel-IsSynced ch s v = elim (Bool-cases (any (has_id ch.id) s.channels)) [
  | inl e ↦ rw e v
  | inr e ↦ rw e (cons-ActiveListed ch s.channels s.active_channel e v)
]

remove-ActiveListed :
    (id : String) (cs : List Channel) (a : Option Channel)
    → ActiveListed cs a
    → ActiveListed
        (filter (λ c. not (c.id == id)) cs)
        (elim a [ none ↦ none | some c ↦ if c.id == id then none else some c ])
remove-ActiveListed id cs none v = tt
remove-ActiveListed id cs (some a) v = elim (Bool-cases (a.id == id)) [
  | inl e ↦ rw e tt
  | inr e ↦ rw e (
      ap (on_active facts) (find-filter id a.id cs ∙ ground (arith, eq_iff a.id id, eq_iff id a.id))
      ∙ v)
]

act-IsSynced : (a : Action) (s : Store) → IsPicked a s → IsSynced s → IsSynced (act a s)
unfolding act remove_channel
act-IsSynced refresh_starts s p v = v
act-IsSynced (refresh_responds seq list) s p v = refresh_response-IsSynced seq list s v
act-IsSynced (refresh_errs seq) s p v = refresh_error-IsSynced seq s v
act-IsSynced (sets_active ch) s p v = set_active_channel-IsSynced ch s p v
act-IsSynced (increments_unread id) s p v =
    light-IsSynced _ _ _ (λ c. ground arith) (λ c. ground arith) v
act-IsSynced (bumps id timestamp preview message_id) s p v =
    light-IsSynced _ _ _ (λ c. ground arith) (λ c. ground arith) v
act-IsSynced (sets_preview id preview) s p v =
    light-IsSynced _ _ _ (λ c. ground arith) (λ c. ground arith) v
act-IsSynced (clears_last id message_id) s p v =
    light-IsSynced _ _ _ (λ c. ground arith) (λ c. ground arith) v
act-IsSynced (creates ch) s p v = create_channel-IsSynced ch s v
act-IsSynced (status_changes user_id status) s p v =
    both-IsSynced _ _ _ (λ c. ground arith) (λ c. ground arith) v
act-IsSynced (avatar_changes user_id avatar_id) s p v =
    both-IsSynced _ _ _ (λ c. ground arith) (λ c. ground arith) v
act-IsSynced (settings_change id settings) s p v =
    both-IsSynced _ _ _ (λ c. ground arith) (λ c. ground arith) v
act-IsSynced (removes id) s p v = remove-ActiveListed id s.channels s.active_channel v
act-IsSynced resets s p v = tt

abbrev pub act_all : List Action → Store → Store
act_all [] s = s
act_all (a ∷ rest) s = act_all rest (act a s)

abbrev pub AllPicked : List Action → Store → Type 0
AllPicked [] s = Unit
AllPicked (a ∷ rest) s = IsPicked a s × AllPicked rest (act a s)

act_all-IsSynced :
    (actions : List Action) (s : Store)
    → AllPicked actions s
    → IsSynced s
    → IsSynced (act_all actions s)
act_all-IsSynced [] s p v = v
act_all-IsSynced (a ∷ rest) s p v = act_all-IsSynced rest (act a s) p.1 (act-IsSynced a s p.0 v)

-- Whatever actions follow, in whatever order, as long as the user picks channels that the list shows:
-- the active channel is in the list, and is equal to its entry there but for the unread count and the
-- last message.
pub active_channel_listed :
    (actions : List Action) → AllPicked actions initial → IsSynced (act_all actions initial)
unfolding initial
active_channel_listed actions p = act_all-IsSynced actions initial p tt
