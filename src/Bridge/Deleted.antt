-- ===== src/Bridge/Deleted.antt =====
-- A channel that the server deletes.
use nodetalk.Prelude.{
  ◌≡◌, refl, String, Bool, false, not, List, [], ◌∷◌, Option, none, some, arith, ◌==◌, filter, any,
  Option-cases, inl, inr,
}
use nodetalk.Api.{Channel}
use nodetalk.Channels.{has_id, remove_channel}
use nodetalk.Voice.{leave_voice}
use nodetalk.Bridge.{World, on_channel_delete, emit}
use nodetalk.Bridge.Calls.{is_in_call}

any-filter :
    (c : String) (cs : List Channel) → any (has_id c) (filter (λ d. not (d.id == c)) cs) ≡ false
unfolding any filter
any-filter c [] = refl
any-filter c (d ∷ cs) = ground (arith, any-filter c cs)

abbrev pub is_shown : String → Option Channel → Bool
is_shown c none = false
is_shown c (some ch) = ch.id == c

-- When the server deletes channel c (a text that is not empty), c is neither listed nor the open
-- channel any more, and the user is in no call of c.
pub deleted_channel_gone :
    {Stream : Type 0} (c : String) (w : World Stream)
    → (c == "") ≡ false
    → let v = on_channel_delete c w in
      (any (has_id c) v.channels.channels ≡ false)
      × (is_shown c v.channels.active_channel ≡ false)
      × (is_in_call c v.voice ≡ false)
unfolding on_channel_delete emit is_in_call remove_channel leave_voice
deleted_channel_gone c w h = (
  ground (arith, h, any-filter c w.channels.channels),
  elim (Option-cases w.channels.active_channel) [
    | inl e ↦ ground (arith, h, e)
    | inr (ch, e) ↦ ground (arith, h, e)
  ],
  ground (arith, h),
)
