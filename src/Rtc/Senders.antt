-- ===== src/Rtc/Senders.antt =====
-- What `removeTrack` leaves of the senders of a connection, and offers whose lines nothing renames.
use mathlib.Core.List.{append-nil}
use nodetalk.Prelude.{
  ◌≡◌, refl, ap, String, false, List, [], ◌∷◌, ◌++◌, map, All, filter, not, ◌==◌, eq_iff, arith,
}
use nodetalk.Rtc.{Sdp}
use nodetalk.Rtc.Media.{munge_line, munge}

-- None of these senders sends the track.
abbrev pub IsNew : String → List String → Type 0
IsNew id senders = All (λ s. (s == id) ≡ false) senders

kept :
    (id : String) (senders rest : List String)
    → IsNew id senders
    → filter (λ s. not (s == id)) (senders ++ rest) ≡ senders ++ filter (λ s. not (s == id)) rest
unfolding filter
kept id [] rest h = refl
kept id (s ∷ senders) rest (h, hs) = rw h (ap (λ xs. s ∷ xs) (kept id senders rest hs))

filter_one : (id : String) → filter (λ s. not (s == id)) (id ∷ []) ≡ []
unfolding filter
filter_one id = ground (arith, eq_iff id id)

pub removed_one :
    (id : String) (senders : List String)
    → IsNew id senders
    → filter (λ s. not (s == id)) (senders ++ id ∷ []) ≡ senders
removed_one id senders h = rw (kept id senders (id ∷ []) h, filter_one id) (append-nil senders)

filter_two :
    (track a : String)
    → filter (λ s. not (s == a)) (filter (λ s. not (s == track)) (track ∷ a ∷ [])) ≡ []
unfolding filter
filter_two track a = ground (arith, eq_iff track track, eq_iff a track, eq_iff a a)

pub removed_both :
    (track a : String) (senders : List String)
    → IsNew track senders
    → IsNew a senders
    → filter (λ s. not (s == a)) (filter (λ s. not (s == track)) (senders ++ track ∷ a ∷ []))
      ≡ senders
unfolding filter
removed_both track a senders h k =
    rw
      (
        kept track senders (track ∷ a ∷ []) h,
        kept a senders (filter (λ s. not (s == track)) (track ∷ a ∷ [])) k,
        filter_two track a,
      )
      (append-nil senders)

map-munge_none : (ls : List String) → map (munge_line []) ls ≡ ls
unfolding munge_line
map-munge_none [] = refl
map-munge_none (l ∷ ls) = ap (λ xs. l ∷ xs) (map-munge_none ls)

pub munge_none : (sdp : Sdp) → munge [] sdp ≡ sdp
unfolding munge munge_line
munge_none sdp = ap (λ l. record sdp { lines = l }) (map-munge_none sdp.lines)
