-- ===== src/Rtc/Speaking.antt =====
-- client-web/src/rtc/WebRTCManager.ts, `startVAD`: one tick of the timer that finds out who speaks. The
-- frequency data of the microphone and of each participant are arguments.
use nodetalk.Prelude.{
  ℕ, ◌+◌, ◌*◌, ◌-◌, ◌≡◌, refl, ap, sym, ◌∙◌, String, Bool, true, false, not, ◌&&◌, ◌||◌, List, [],
  ◌∷◌, none, some, arith, nat_beq, ltb, leb, ◌==◌, eq_iff, if◌then◌else◌, any, length, Bool-cases,
  inl, inr,
}
use nodetalk.Prelude.Dict
use nodetalk.Prelude.Dict.{Dict, lookup-insert}
use nodetalk.Prelude.IdSet
use nodetalk.Voice.Actions.{set_internal_state}
use nodetalk.Rtc.{Rtc, set_internal, no_change}

abbrev sum : List ℕ → ℕ
sum [] = 0
sum (n ∷ rest) = n + sum rest

-- The average is above the threshold of 15.
unfoldable pub is_loud : List ℕ → Bool
is_loud levels = ltb (15 * length levels) (sum levels)

unfoldable pub mark_loud : ℕ → (String → List ℕ) → List String → Dict ℕ → Dict ℕ
mark_loud now levels [] spoke = spoke
mark_loud now levels (u ∷ users) spoke =
    mark_loud now levels users (if is_loud (levels u) then Dict.insert u now spoke else spoke)

-- The microphone counts unless it is muted.
unfoldable pub mark_local : ℕ → List ℕ → Rtc → Dict ℕ
mark_local now levels r = elim r.user_id [
  | none ↦ r.speaker_last_spoke
  | some me ↦
      if not (me == "") && r.local_analyser && not r.voice.is_muted && is_loud levels
      then Dict.insert me now r.speaker_last_spoke
      else r.speaker_last_spoke
]

-- Whoever spoke in the last 250 ms.
unfoldable pub speaking_now : ℕ → Dict ℕ → List String
speaking_now now [] = []
speaking_now now ((u, last) ∷ spoke) =
    if leb (now - last) 250 then u ∷ speaking_now now spoke else speaking_now now spoke

unfoldable pub is_changed : List String → List String → Bool
is_changed new current =
    not (nat_beq (length new) (length current)) || any (λ u. not (IdSet.has u current)) new

unfoldable pub vad_tick : ℕ → List ℕ → (String → List ℕ) → Rtc → Rtc
unfolding mark_local mark_loud speaking_now is_changed set_internal
vad_tick now local levels r =
    let spoke = mark_loud now levels r.remote_analysers (mark_local now local r) in
    let new = speaking_now now spoke in
    let s = record r { speaker_last_spoke = spoke } in
    if is_changed new s.voice.speaking_users
    then set_internal (record no_change { speaking_users = some new }) s
    else s

mark_loud_stays :
    (now : ℕ) (levels : String → List ℕ) (u : String) (users : List String) (spoke : Dict ℕ)
    → Dict.lookup u spoke ≡ some now
    → Dict.lookup u (mark_loud now levels users spoke) ≡ some now
unfolding mark_loud
mark_loud_stays now levels u [] spoke h = h
mark_loud_stays now levels u (w ∷ users) spoke h =
    mark_loud_stays now levels u users
      (if is_loud (levels w) then Dict.insert w now spoke else spoke)
      (ground (arith, h, lookup-insert w u now spoke))

mark_loud_lem :
    (now : ℕ) (levels : String → List ℕ) (u : String) (users : List String) (spoke : Dict ℕ)
    → IdSet.has u users ≡ true
    → is_loud (levels u) ≡ true
    → Dict.lookup u (mark_loud now levels users spoke) ≡ some now
unfolding mark_loud IdSet.has
mark_loud_lem now levels u [] spoke h k = cc
mark_loud_lem now levels u (w ∷ users) spoke h k = elim (Bool-cases (w == u)) [
  | inl e ↦
      let same : w ≡ u = (eq_iff w u).0 e in
      mark_loud_stays now levels u users
        (if is_loud (levels w) then Dict.insert w now spoke else spoke)
        (rw (ap (λ x. is_loud (levels x)) same ∙ k) (lookup-insert w u now spoke ∙ rw e refl))
  | inr e ↦
      mark_loud_lem now levels u users
        (if is_loud (levels w) then Dict.insert w now spoke else spoke) (ground (arith, e, h)) k
]

speaking_now-has :
    (now : ℕ) (u : String) (spoke : Dict ℕ)
    → Dict.lookup u spoke ≡ some now
    → IdSet.has u (speaking_now now spoke) ≡ true
unfolding speaking_now IdSet.has Dict.lookup
speaking_now-has now u [] h = cc
speaking_now-has now u ((w, last) ∷ spoke) h =
    ground (arith, h, eq_iff w u, speaking_now-has now u spoke)

unchanged-has :
    (u : String) (new current : List String)
    → any (λ w. not (IdSet.has w current)) new ≡ false
    → IdSet.has u new ≡ true
    → IdSet.has u current ≡ true
unfolding any IdSet.has
unchanged-has u [] current h k = cc
unchanged-has u (w ∷ new) current h k = elim (Bool-cases (w == u)) [
  | inl e ↦ ap (λ x. IdSet.has x current) (sym ((eq_iff w u).0 e)) ∙ ground (arith, h)
  | inr e ↦ unchanged-has u new current (ground (arith, h)) (ground (arith, e, k))
]

-- A participant u who is loud at a tick is shown as speaking after it, and as many are shown as spoke in
-- the last 250 ms, whether or not the tick had to change what is shown.
pub loud_user_shown :
    (now : ℕ) (local : List ℕ) (levels : String → List ℕ) (u : String) (r : Rtc)
    → IdSet.has u r.remote_analysers ≡ true
    → is_loud (levels u) ≡ true
    → let t = vad_tick now local levels r in
      (IdSet.has u t.voice.speaking_users ≡ true)
      × (length t.voice.speaking_users ≡ length (speaking_now now t.speaker_last_spoke))
unfolding vad_tick is_changed set_internal set_internal_state
loud_user_shown now local levels u r h k =
    let spoke = mark_loud now levels r.remote_analysers (mark_local now local r) in
    let shown =
      speaking_now-has now u spoke
        (mark_loud_lem now levels u r.remote_analysers (mark_local now local r) h k) in
    let current = r.voice.speaking_users in
    elim (Bool-cases (is_changed (speaking_now now spoke) current)) [
      | inl e ↦ rw e (shown, refl)
      | inr e ↦ rw e (
        unchanged-has u (speaking_now now spoke) current (ground (arith, e)) shown,
        ground (arith, e),
      )
    ]
