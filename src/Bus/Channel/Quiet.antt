-- ===== src/Bus/Channel/Quiet.antt =====
-- msgs.js, `_channel`: what `send` may throw.
use msgs.Bus.Channel.{run_taps, unhandled, failed, Wiring, send}
use msgs.Js.Effect.{Js, pure, ◌>>=◌, ◌>>◌}
use msgs.Js.Value.{Value}
use msgs.Base.{Bool, Option, true, ◌≡◌, ◌⊎◌, Bool-cases, [], inl, inr, none, some, ◌∷◌}
use msgs.Js.Object.{Object}
use msgs.Message.{Message}
use msgs.Js.Quiet.{IsQuiet, bind-IsQuiet, catching-IsQuiet, pure-IsQuiet}
use msgs.Js.Text.{text}

module _ {W C : Type 0} (wiring : Wiring W C) where
  open wiring use {
    dispatch_taps, dispatch, channel, dead_letter_channel, invalid_message_channel, same, send_to,
  }

  run_taps-IsQuiet :
      (t : Option (Message → Js W Bool)) (m : Message) → IsQuiet (run_taps wiring t m)
  unfolding run_taps
  run_taps-IsQuiet none m = pure-IsQuiet tt
  run_taps-IsQuiet (some taps) m =
      catching-IsQuiet (taps m >> pure tt) (λ e. pure tt) (λ v. pure-IsQuiet tt)

  failed-IsQuiet :
      (m : Message)
      → ((same channel invalid_message_channel ≡ true)
          ⊎ ((h : Object Value) → IsQuiet (send_to invalid_message_channel m h)))
      → (v : Value) → IsQuiet (failed wiring m v)
  unfolding failed
  failed-IsQuiet m (inl p) v w e = rw p (pure-IsQuiet tt w e)
  failed-IsQuiet m (inr q) v w e = elim (Bool-cases (same channel invalid_message_channel)) [
    | inl p ↦ rw p (pure-IsQuiet tt w e)
    | inr p ↦ rw p (q ((text "error", v) ∷ []) w e)
  ]

  -- If the bus sends to the invalid message channel without throwing, then no handler, tap or
  -- dispatcher of a channel makes its `send` throw; the invalid message channel needs no such
  -- condition.
  pub send-IsQuiet :
      (m : Message)
      → ((same channel invalid_message_channel ≡ true)
          ⊎ ((h : Object Value) → IsQuiet (send_to invalid_message_channel m h)))
      → IsQuiet (send wiring m)
  unfolding send
  send-IsQuiet m q =
      bind-IsQuiet (run_taps wiring dispatch_taps m) _ (run_taps-IsQuiet dispatch_taps m) (λ u.
        catching-IsQuiet (do handled ← dispatch m; unhandled wiring handled m) (failed wiring m)
          (failed-IsQuiet m q))
