-- ===== src/Wire/Listeners.antt =====
-- The table of listeners, against a function from events to lists.
use mathlib.Core.Path.{fun_ext}
use nodetalk.Prelude.{
  ℕ, suc, ◌+◌, ◌≤◌, max, ◌≡◌, refl, ap, ◌∙◌, String, Bool, true, false, not, ◌&&◌, ◌||◌, List, [],
  ◌∷◌, ◌++◌, map, any, any-append, filter, nat_beq, arith, ◌==◌, eq_iff, if◌then◌else◌, or_default,
  Option-cases, Bool-cases, inl, inr,
}
use nodetalk.Prelude.Dict
use nodetalk.Prelude.Dict.{Dict, lookup-insert}
use nodetalk.Wire.{Event, Client, add, remove, listeners_of, on_ws, off_ws, emit}

pub data Change : Type 0 where
  listens : String → ℕ → Change
  unsubscribes : String → ℕ → Change

unfoldable pub change : Change → Dict (List ℕ) → Dict (List ℕ)
unfolding on_ws off_ws
change (listens event fn) table = on_ws event fn table
change (unsubscribes event fn) table = off_ws event fn table

unfoldable pub change_all : List Change → Dict (List ℕ) → Dict (List ℕ)
unfolding change
change_all [] table = table
change_all (c ∷ changes) table = change_all changes (change c table)

-- The same on a function from events to the listeners: a listener joins those of an event at the end,
-- unless it is among them; and it leaves them.
abbrev pub is_among : ℕ → List ℕ → Bool
is_among fn = any (λ g. nat_beq g fn)

abbrev pub joined : ℕ → List ℕ → List ℕ
joined fn fns = if is_among fn fns then fns else fns ++ fn ∷ []

abbrev pub left : ℕ → List ℕ → List ℕ
left fn = filter (λ g. not (nat_beq g fn))

abbrev pub at : String → (List ℕ → List ℕ) → (String → List ℕ) → String → List ℕ
at event g f other = if event == other then g (f other) else f other

unfoldable pub replay : List Change → (String → List ℕ) → String → List ℕ
replay [] f = f
replay (listens event fn ∷ changes) f = replay changes (at event (joined fn) f)
replay (unsubscribes event fn ∷ changes) f = replay changes (at event (left fn) f)

-- Whether the last change of this listener for this event was that it listens; `before` where there is
-- none.
unfoldable pub listens_last : String → ℕ → List Change → Bool → Bool
listens_last name fn [] before = before
listens_last name fn (listens event g ∷ changes) before =
    listens_last name fn changes (if event == name && nat_beq g fn then true else before)
listens_last name fn (unsubscribes event g ∷ changes) before =
    listens_last name fn changes (if event == name && nat_beq g fn then false else before)

-- How often it is called.
unfoldable pub count : ℕ → List ℕ → ℕ
count fn [] = 0
count fn (g ∷ fns) = if nat_beq g fn then suc (count fn fns) else count fn fns

add_lem : (fn : ℕ) (fns : List ℕ) → add fn fns ≡ joined fn fns
unfolding add any
add_lem fn [] = refl
add_lem fn (g ∷ fns) = ground (arith, add_lem fn fns)

remove_lem : (fn : ℕ) (fns : List ℕ) → remove fn fns ≡ left fn fns
unfolding remove filter
remove_lem fn [] = refl
remove_lem fn (g ∷ fns) = ground (arith, remove_lem fn fns)

is_among-joined :
    (fn g : ℕ) (fns : List ℕ) → is_among fn (joined g fns) ≡ (nat_beq g fn || is_among fn fns)
unfolding any
is_among-joined fn g fns = elim (Bool-cases (nat_beq g fn)) [
  | inl e ↦
      let same : g ≡ fn = ground arith in
      rw same (ground (arith, any-append (λ h. nat_beq h fn) fns (fn ∷ [])))
  | inr e ↦ ground (arith, any-append (λ h. nat_beq h fn) fns (g ∷ []))
]

is_among-left :
    (fn g : ℕ) (fns : List ℕ)
    → is_among fn (left g fns) ≡ (if nat_beq g fn then false else is_among fn fns)
unfolding any filter
is_among-left fn g [] = ground arith
is_among-left fn g (h ∷ fns) = ground (arith, is_among-left fn g fns)

count-append : (fn : ℕ) (xs ys : List ℕ) → count fn (xs ++ ys) ≡ count fn xs + count fn ys
unfolding count
count-append fn [] ys = omega arith
count-append fn (x ∷ xs) ys = ground (arith, count-append fn xs ys)

count-absent : (fn : ℕ) (fns : List ℕ) → is_among fn fns ≡ false → count fn fns ≡ 0
unfolding count any
count-absent fn [] h = refl
count-absent fn (g ∷ fns) h = ground (arith, count-absent fn fns)

count-joined : (fn g : ℕ) (fns : List ℕ) → count fn (joined g fns) ≤ max 1 (count fn fns)
unfolding count
count-joined fn g fns = elim (Bool-cases (nat_beq g fn)) [
  | inl e ↦
      let same : g ≡ fn = ground arith in
      rw same (ground (arith, count-append fn fns (fn ∷ []), count-absent fn fns))
  | inr e ↦ ground (arith, count-append fn fns (g ∷ []))
]

count-left : (fn g : ℕ) (fns : List ℕ) → count fn (left g fns) ≤ count fn fns
unfolding count filter
count-left fn g [] = omega arith
count-left fn g (h ∷ fns) = ground (arith, count-left fn g fns)

replay-is_among :
    (name : String) (fn : ℕ) (changes : List Change) (f : String → List ℕ)
    → is_among fn (replay changes f name) ≡ listens_last name fn changes (is_among fn (f name))
unfolding replay listens_last
replay-is_among name fn [] f = refl
replay-is_among name fn (listens event g ∷ changes) f =
    replay-is_among name fn changes (at event (joined g) f)
    ∙ ap (listens_last name fn changes) (ground (arith, is_among-joined fn g (f name)))
replay-is_among name fn (unsubscribes event g ∷ changes) f =
    replay-is_among name fn changes (at event (left g) f)
    ∙ ap (listens_last name fn changes) (ground (arith, is_among-left fn g (f name)))

replay-count :
    (name : String) (fn : ℕ) (changes : List Change) (f : String → List ℕ)
    → count fn (replay changes f name) ≤ max 1 (count fn (f name))
unfolding replay
replay-count name fn [] f = omega arith
replay-count name fn (listens event g ∷ changes) f =
    ground (arith, replay-count name fn changes (at event (joined g) f), count-joined fn g (f name))
replay-count name fn (unsubscribes event g ∷ changes) f =
    ground (arith, replay-count name fn changes (at event (left g) f), count-left fn g (f name))

listeners_of-on_ws :
    (event : String) (fn : ℕ) (table : Dict (List ℕ)) (other : String)
    → listeners_of other (on_ws event fn table)
      ≡ at event (joined fn) (λ e. listeners_of e table) other
unfolding listeners_of on_ws
listeners_of-on_ws event fn table other = ground (
  arith,
  lookup-insert event other (add fn (or_default (Dict.lookup event table) [])) table,
  add_lem fn (or_default (Dict.lookup event table) []),
  eq_iff event other,
)

listeners_of-off_ws :
    (event : String) (fn : ℕ) (table : Dict (List ℕ)) (other : String)
    → listeners_of other (off_ws event fn table)
      ≡ at event (left fn) (λ e. listeners_of e table) other
unfolding listeners_of off_ws filter
listeners_of-off_ws event fn table other = elim (Option-cases (Dict.lookup event table)) [
  | inl e ↦ ground (arith, e, eq_iff event other)
  | inr (fns, e) ↦ ground (
    arith,
    e,
    lookup-insert event other (remove fn fns) table,
    remove_lem fn fns,
    eq_iff event other,
  )
]

change_all_refines :
    (changes : List Change) (table : Dict (List ℕ))
    → (λ e. listeners_of e (change_all changes table)) ≡ replay changes (λ e. listeners_of e table)
unfolding change_all change replay
change_all_refines [] table = refl
change_all_refines (listens event fn ∷ changes) table =
    change_all_refines changes (on_ws event fn table)
    ∙ ap (replay changes) (fun_ext (listeners_of-on_ws event fn table))
change_all_refines (unsubscribes event fn ∷ changes) table =
    change_all_refines changes (off_ws event fn table)
    ∙ ap (replay changes) (fun_ext (listeners_of-off_ws event fn table))

-- After any listeners were added and removed, an event calls what the same changes make of a function
-- from events to lists of listeners, on which one that is added goes to the end, unless it is there, and
-- one that is removed is taken out. So listener fn is among those that are called if the last change of
-- fn for this event was that it listens (or, where there was none, if it was among them before), and it
-- is called once at most, or as often as before.
pub emit_refines :
    {Bytes J : Type 0} (changes : List Change) (name : String) (fn : ℕ) (event : Event J)
    (c : Client Bytes J)
    → let before : String → List ℕ = λ e. listeners_of e c.listeners in
      let after = replay changes before name in
      ((emit name event (record c { listeners = change_all changes c.listeners })).called
        ≡ c.called ++ map (λ fn. (fn, event)) after)
      × (is_among fn after ≡ listens_last name fn changes (is_among fn (before name)))
      × (count fn after ≤ max 1 (count fn (before name)))
unfolding emit
emit_refines changes name fn event c = (
  ap (λ (f : String → List ℕ). c.called ++ map (λ fn. (fn, event)) (f name))
      (change_all_refines changes c.listeners),
  replay-is_among name fn changes (λ e. listeners_of e c.listeners),
  replay-count name fn changes (λ e. listeners_of e c.listeners),
)
