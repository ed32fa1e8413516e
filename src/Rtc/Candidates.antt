-- ===== src/Rtc/Candidates.antt =====
-- The network candidates that the server sends, in whatever order they and the descriptions come.
use mathlib.Core.List.{append_assoc, append-nil}
use nodetalk.Prelude.{
  ◌≡◌, refl, ap, sym, ◌∙◌, String, Bool, false, List, [], ◌∷◌, ◌++◌, Option, none, some, arith,
  if◌then◌else◌, is_some, is_text, Bool-cases, inl, inr,
}
use nodetalk.Rtc.{Rtc, Pc, Sdp, Target, publish, subscribe, ws_send_call, log}
use nodetalk.Rtc.Signals.{
  Answered, answered, refused, answer_failed, flush_pending_candidates, on_call_publish_answer,
  accept_offer, handle_subscribe_offer, on_call_subscribe_offer, has_remote, with_candidate,
  on_call_ice_candidate,
}

-- What the server sends for the two connections.
pub data Signal : Type 0 where
  publish_answer : String → Sdp → Option String → Signal
  subscribe_offer : String → Sdp → Answered → Signal
  ice_candidate : String → Target → String → Signal

unfoldable pub receive : Signal → Rtc → Rtc
unfolding on_call_publish_answer on_call_subscribe_offer on_call_ice_candidate
receive (publish_answer c sdp error) r = on_call_publish_answer c sdp error r
receive (subscribe_offer c sdp answer) r = on_call_subscribe_offer c sdp answer r
receive (ice_candidate c target candidate) r = on_call_ice_candidate c target candidate r

unfoldable pub receive_all : List Signal → Rtc → Rtc
unfolding receive
receive_all [] r = r
receive_all (s ∷ signals) r = receive_all signals (receive s r)

abbrev pub added : Option Pc → List String
added none = []
added (some pc) = pc.candidates

-- The candidates handed to the connection, and after them those that wait.
abbrev pub arrived : Target → Rtc → List String
arrived publish r = added r.publish_pc ++ r.pending_publish_candidates
arrived subscribe r = added r.subscribe_pc ++ r.pending_subscribe_candidates

-- Those that a message brings to a connection of the call in this channel, if there is one.
abbrev pub brought : Option String → Target → Signal → List String
brought d publish (ice_candidate c publish candidate) = if is_text d c then candidate ∷ [] else []
brought d subscribe (ice_candidate c subscribe candidate) =
    if is_text d c then candidate ∷ [] else []
brought d _ _ = []

abbrev pub all_brought : Option String → Target → List Signal → List String
all_brought d target [] = []
all_brought d target (s ∷ signals) = brought d target s ++ all_brought d target signals

-- Something waits for a connection that has its description.
abbrev pub waits : Option Pc → List String → Bool
waits pc [] = false
waits pc (_ ∷ _) = has_remote pc

abbrev pub NothingWaits : Rtc → Type 0
NothingWaits r =
    (waits r.publish_pc r.pending_publish_candidates ≡ false)
    × (waits r.subscribe_pc r.pending_subscribe_candidates ≡ false)

without_remote : (pc : Option Pc) (q : List String) → has_remote pc ≡ false → waits pc q ≡ false
without_remote pc [] h = refl
without_remote pc (_ ∷ _) h = h

-- A candidate, taken by a connection with its queue.
taken : String → Option Pc → List String → List String
taken c pc q = if has_remote pc then added (with_candidate c pc) ++ q else added pc ++ (q ++ c ∷ [])

taken-append :
    (c : String) (pc : Option Pc) (q : List String)
    → waits pc q ≡ false
    → taken c pc q ≡ added pc ++ q ++ c ∷ []
unfolding taken
taken-append c none q h = refl
taken-append c (some pc) (x ∷ q) h = rw h (sym (append_assoc pc.candidates (x ∷ q) (c ∷ [])))
taken-append c (some pc) [] h = elim (Bool-cases (is_some pc.remote_description)) [
  | inl e ↦ rw e (
      append-nil (pc.candidates ++ c ∷ []) ∙ ap (λ l. l ++ c ∷ []) (sym (append-nil pc.candidates)))
  | inr e ↦ rw e (ap (λ l. l ++ c ∷ []) (sym (append-nil pc.candidates)))
]

waits_taken :
    (c : String) (pc : Option Pc) (q : List String)
    → waits pc q ≡ false
    → (if has_remote pc then waits (with_candidate c pc) q else waits pc (q ++ c ∷ [])) ≡ false
waits_taken c none q h = without_remote none (q ++ c ∷ []) refl
waits_taken c (some pc) (x ∷ q) h = rw h refl
waits_taken c (some pc) [] h = elim (Bool-cases (is_some pc.remote_description)) [
  | inl e ↦ rw e refl
  | inr e ↦ rw e refl
]

-- The manager with these connections and queues.
abbrev with_sides : Option String → Option Pc → List String → Option Pc → List String → Rtc → Rtc
with_sides d pc q pc' q' r = record r {
  channel_id = d;
  publish_pc = pc;
  pending_publish_candidates = q;
  subscribe_pc = pc';
  pending_subscribe_candidates = q';
}

abbrev IsKept : Target → Signal → Rtc → Type 0
IsKept target s r =
    (arrived target (receive s r) ≡ arrived target r ++ brought r.channel_id target s)
    × (waits (receive s r).publish_pc (receive s r).pending_publish_candidates ≡ false)
    × (waits (receive s r).subscribe_pc (receive s r).pending_subscribe_candidates ≡ false)
    × ((receive s r).channel_id ≡ r.channel_id)

candidate-IsKept :
    (target of : Target) (c candidate : String) (d : Option String) (pc pc' : Option Pc)
    (q q' : List String) (r : Rtc)
    → waits pc q ≡ false
    → waits pc' q' ≡ false
    → IsKept target (ice_candidate c of candidate) (with_sides d pc q pc' q' r)
unfolding receive on_call_ice_candidate taken
candidate-IsKept publish publish c candidate d pc pc' q q' r h h' =
    let t = taken-append candidate pc q h in
    let w = waits_taken candidate pc q h in
    let n = append-nil (added pc ++ q) in
    (ground (arith, t, n), ground (arith, w, h), ground (arith, h'), ground arith)
candidate-IsKept subscribe publish c candidate d pc pc' q q' r h h' =
    let t = taken-append candidate pc q h in
    let w = waits_taken candidate pc q h in
    let n = append-nil (added pc' ++ q') in
    (ground (arith, t, n), ground (arith, w, h), ground (arith, h'), ground arith)
candidate-IsKept publish subscribe c candidate d pc pc' q q' r h h' =
    let t = taken-append candidate pc' q' h' in
    let w = waits_taken candidate pc' q' h' in
    let n = append-nil (added pc ++ q) in
    (ground (arith, t, n), ground (arith, h), ground (arith, w, h'), ground arith)
candidate-IsKept subscribe subscribe c candidate d pc pc' q q' r h h' =
    let t = taken-append candidate pc' q' h' in
    let w = waits_taken candidate pc' q' h' in
    let n = append-nil (added pc' ++ q') in
    (ground (arith, t, n), ground (arith, h), ground (arith, w, h'), ground arith)

answer-IsKept :
    (target : Target) (c : String) (sdp : Sdp) (error d : Option String) (pc pc' : Option Pc)
    (q q' : List String) (r : Rtc)
    → waits pc q ≡ false
    → waits pc' q' ≡ false
    → IsKept target (publish_answer c sdp error) (with_sides d pc q pc' q' r)
unfolding receive on_call_publish_answer flush_pending_candidates log
answer-IsKept publish c sdp error d none pc' q q' r h h' =
    let n = append-nil q in (ground (arith, n), ground (arith, h), ground (arith, h'), ground arith)
answer-IsKept subscribe c sdp error d none pc' q q' r h h' =
    let n = append-nil (added pc' ++ q') in
    (ground (arith, n), ground (arith, h), ground (arith, h'), ground arith)
answer-IsKept publish c sdp error d (some pc) pc' q q' r h h' =
    let n = append-nil (pc.candidates ++ q) in
    (ground (arith, n), ground (arith, h), ground (arith, h'), ground arith)
answer-IsKept subscribe c sdp error d (some pc) pc' q q' r h h' =
    let n = append-nil (added pc' ++ q') in
    (ground (arith, n), ground (arith, h), ground (arith, h'), ground arith)

offer-IsKept :
    (target : Target) (c : String) (sdp : Sdp) (answer : Answered) (d : Option String)
    (pc pc' : Option Pc) (q q' : List String) (r : Rtc)
    → waits pc q ≡ false
    → waits pc' q' ≡ false
    → IsKept target (subscribe_offer c sdp answer) (with_sides d pc q pc' q' r)
unfolding receive on_call_subscribe_offer handle_subscribe_offer accept_offer
    flush_pending_candidates log ws_send_call
offer-IsKept publish c sdp answer d pc none q q' r h h' =
    let n = append-nil (added pc ++ q) in
    (ground (arith, n), ground (arith, h), ground (arith, h'), ground arith)
offer-IsKept subscribe c sdp answer d pc none q q' r h h' =
    let n = append-nil q' in
    (ground (arith, n), ground (arith, h), ground (arith, h'), ground arith)
offer-IsKept publish c sdp (answered sdp') d pc (some pc') q q' r h h' =
    let n = append-nil (added pc ++ q) in
    (ground (arith, n), ground (arith, h), ground (arith, h'), ground arith)
offer-IsKept publish c sdp (refused err) d pc (some pc') q q' r h h' =
    let n = append-nil (added pc ++ q) in
    (ground (arith, n), ground (arith, h), ground (arith, h'), ground arith)
offer-IsKept publish c sdp (answer_failed err) d pc (some pc') q q' r h h' =
    let n = append-nil (added pc ++ q) in
    (ground (arith, n), ground (arith, h), ground (arith, h'), ground arith)
offer-IsKept subscribe c sdp (answered sdp') d pc (some pc') q q' r h h' =
    let n = append-nil (pc'.candidates ++ q') in
    (ground (arith, n), ground (arith, h), ground (arith, h'), ground arith)
offer-IsKept subscribe c sdp (refused err) d pc (some pc') q q' r h h' =
    let n = append-nil (pc'.candidates ++ q') in
    (ground (arith, n), ground (arith, h), ground (arith, h'), ground arith)
offer-IsKept subscribe c sdp (answer_failed err) d pc (some pc') q q' r h h' =
    let n = append-nil (pc'.candidates ++ q') in
    (ground (arith, n), ground (arith, h), ground (arith, h'), ground arith)

receive-IsKept : (target : Target) (s : Signal) (r : Rtc) → NothingWaits r → IsKept target s r
receive-IsKept target (publish_answer c sdp error) r (h, h') =
    answer-IsKept target c sdp error r.channel_id r.publish_pc r.subscribe_pc
      r.pending_publish_candidates r.pending_subscribe_candidates r h h'
receive-IsKept target (subscribe_offer c sdp answer) r (h, h') =
    offer-IsKept target c sdp answer r.channel_id r.publish_pc r.subscribe_pc
      r.pending_publish_candidates r.pending_subscribe_candidates r h h'
receive-IsKept target (ice_candidate c of candidate) r (h, h') =
    candidate-IsKept target of c candidate r.channel_id r.publish_pc r.subscribe_pc
      r.pending_publish_candidates r.pending_subscribe_candidates r h h'

-- However the descriptions and the candidates of a call are interleaved, and whichever descriptions
-- the browser refuses, the candidates handed to a connection with those that still wait are the ones
-- that came for it, each once and in order, and none waits once the connection has its description.
pub candidates_in_order :
    (target : Target) (signals : List Signal) (r : Rtc)
    → NothingWaits r
    → (arrived target (receive_all signals r)
        ≡ arrived target r ++ all_brought r.channel_id target signals)
      × NothingWaits (receive_all signals r)
unfolding receive_all
candidates_in_order target [] r v = (sym (append-nil (arrived target r)), v)
candidates_in_order target (s ∷ signals) r v =
    let k = receive-IsKept target s r v in
    let rest = candidates_in_order target signals (receive s r) (k.1, k.2) in
    let d = r.channel_id in
    (
      rest.0
          ∙ ap (λ o. arrived target (receive s r) ++ all_brought o target signals) k.3
          ∙ ap (λ l. l ++ all_brought d target signals) k.0
          ∙ append_assoc (arrived target r) (brought d target s) (all_brought d target signals),
      rest.1,
    )
