-- ===== src/Channels/Refresh.antt =====
-- `refreshChannels` when several calls overlap.
use nodetalk.Prelude.{ℕ, suc, ◌≡◌, refl, ap, ◌∙◌, ◌≢◌, false, List, [], ◌∷◌, arith, All}
use nodetalk.Api.{Channel}
use nodetalk.Channels.{Store, next_active, refresh_start, refresh_response, refresh_error}

-- What comes back from the server, for the call with a number.
pub data Reply : Type 0 where
  response : ℕ → List Channel → Reply
  error : ℕ → Reply

abbrev pub number : Reply → ℕ
number (response seq list) = seq
number (error seq) = seq

abbrev pub receive : Store → Reply → Store
receive s (response seq list) = (refresh_response seq list s).0
receive s (error seq) = refresh_error seq s

abbrev pub receive_all : Store → List Reply → Store
receive_all s [] = s
receive_all s (r ∷ rs) = receive_all (receive s r) rs

-- A reply to a call that is not the latest leaves all but the loading flag alone.
stale :
    (s : Store) (r : Reply)
    → number r ≢ s.refresh_seq
    → ((receive s r).channels ≡ s.channels)
      × ((receive s r).active_channel ≡ s.active_channel)
      × ((receive s r).refresh_seq ≡ s.refresh_seq)
unfolding refresh_response refresh_error
stale s (response seq list) h = (ground arith, ground arith, ground arith)
stale s (error seq) h = (ground arith, ground arith, ground arith)

stale-All :
    (rs : List Reply) (s : Store)
    → All (λ r. number r ≢ s.refresh_seq) rs
    → ((receive_all s rs).channels ≡ s.channels)
      × ((receive_all s rs).active_channel ≡ s.active_channel)
      × ((receive_all s rs).refresh_seq ≡ s.refresh_seq)
stale-All [] s h = (refl, refl, refl)
stale-All (r ∷ rs) s h =
    let (a, b, c) = stale s r h.0 in
    let (a', b', c') = stale-All rs (receive s r) (rw c h.1) in (a' ∙ a, b' ∙ b, c' ∙ c)

applied :
    (n : ℕ) (s : Store) (list : List Channel)
    → s.refresh_seq ≡ n
    → let s' = (refresh_response n list s).0 in
      (s'.channels ≡ list)
      × (s'.active_channel ≡ next_active list s.active_channel)
      × (s'.is_channels_loading ≡ false)
      × (s'.refresh_seq ≡ n)
unfolding refresh_response
applied n s list e = (ground arith, ground arith, ground arith, ground arith)

started :
    (s : Store)
    → ((refresh_start s).refresh_seq ≡ suc s.refresh_seq)
      × ((refresh_start s).active_channel ≡ s.active_channel)
unfolding refresh_start
started s = (refl, refl)

-- Whatever replies to older calls come in before and after it, in whatever order, the response to the
-- latest call is the one whose list stays; the active channel is then the list's channel with the id
-- of the one that was active, or none.
pub latest_refresh_wins :
    (s : Store) (before after : List Reply) (list : List Channel)
    → All (λ r. number r ≢ suc s.refresh_seq) before
    → All (λ r. number r ≢ suc s.refresh_seq) after
    → let t = receive_all (refresh_start s) before in
      let u = receive_all (receive t (response (suc s.refresh_seq) list)) after in
      (u.channels ≡ list) × (u.active_channel ≡ next_active list s.active_channel)
latest_refresh_wins s before after list hb ha =
    let (e, f) = started s in
    let (_, b, n) = stale-All before (refresh_start s) (rw e hb) in
    let t = receive_all (refresh_start s) before in
    let (c, a, l, m) = applied (suc s.refresh_seq) t list (n ∙ e) in
    let u = (refresh_response (suc s.refresh_seq) list t).0 in
    let (c', a', _) = stale-All after u (rw m ha) in
    (c' ∙ c, a' ∙ a ∙ ap (next_active list) (b ∙ f))
