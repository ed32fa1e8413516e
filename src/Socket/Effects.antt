-- ===== src/Socket/Effects.antt =====
-- The callbacks that the handlers of a socket make.
use nodetalk.Prelude.{ℕ, String, ◌≡◌, refl, ◌∷◌, arith}
use nodetalk.Socket.{
  Manager, on_open, on_message, on_close, handle_open, handle_message, handle_close,
}
use nodetalk.Socket.Step.{opens, receives, closes, step}

pub opens_effects : (now i : ℕ) (s : Manager) → (step now (opens i) s).effects ≡ on_open ∷ s.effects
unfolding step handle_open
opens_effects now i s = refl

pub receives_effects :
    (now i : ℕ) (raw : String) (s : Manager)
    → (step now (receives i raw) s).effects ≡ on_message raw ∷ s.effects
unfolding step handle_message
receives_effects now i raw s = refl

pub closes_effects :
    (now i code : ℕ) (s : Manager)
    → (step now (closes i code) s).effects ≡ on_close code ∷ s.effects
unfolding step handle_close
closes_effects now i code s = ground arith
