-- ===== src/Bus/Channel/Preserves.antt =====
-- msgs.js, `_channel`: a property that the taps, the dispatcher and the bus keep.
use msgs.Base.{Bool, true, false, Bool-cases, inl, inr, none, some, Option, [], ◌≡◌, ◌⊎◌}
use msgs.Js.Value.{Value}
use msgs.Js.Object.{Object}
use msgs.Js.Effect.{Js, pure, ◌>>=◌, ◌>>◌}
use msgs.Js.Quiet.{QuietWhere, bind-QuietWhere, catching-QuietWhere, pure-IsQuiet}
use msgs.Js.Preserves.{Preserves, bind-Preserves, catching-Preserves}
use msgs.Message.{Message}
use msgs.Bus.Channel.{Wiring, send, run_taps, unhandled, failed}

abbrev pub TapsKeep : {W : Type 0} → (W → Type 0) → Option (Message → Js W Bool) → Type 0
TapsKeep P none = Unit
TapsKeep P (some taps) = (m : Message) → Preserves P (taps m)

module _ {W C : Type 0} (P : W → Type 0) (wiring : Wiring W C)
    (taps_keep : TapsKeep P wiring.dispatch_taps)
    (dispatch_keeps : (m : Message) → Preserves P (wiring.dispatch m))
    (send_keeps : (c : C) (m : Message) (headers : Object Value)
      → Preserves P (wiring.send_to c m headers)) where
  run_taps-Preserves :
      (taps : Option (Message → Js W Bool)) (m : Message)
      → TapsKeep P taps
      → Preserves P (run_taps wiring taps m)
  unfolding run_taps
  run_taps-Preserves none m h = λ w p. p
  run_taps-Preserves (some t) m h =
      catching-Preserves P (t m >> pure tt) (λ e. pure tt)
        (bind-Preserves P (t m) (λ _. pure tt) (h m) (λ _ w p. p)) (λ e w p. p)

  unhandled-Preserves : (handled : Bool) (m : Message) → Preserves P (unhandled wiring handled m)
  unfolding unhandled
  unhandled-Preserves true m = λ w p. p
  unhandled-Preserves false m =
      elim (Bool-cases (wiring.same wiring.channel wiring.dead_letter_channel)) [
        | inl t ↦ rw t (λ w p. p)
        | inr f ↦ rw f (send_keeps wiring.dead_letter_channel m [])
      ]

  failed-Preserves : (m : Message) (e : Value) → Preserves P (failed wiring m e)
  unfolding failed
  failed-Preserves m e =
      elim (Bool-cases (wiring.same wiring.channel wiring.invalid_message_channel)) [
        | inl t ↦ rw t (λ w p. p)
        | inr f ↦ rw f (send_keeps wiring.invalid_message_channel m _)
      ]

  -- What is done before an error is handled.
  guarded-Preserves :
      (m : Message)
      → Preserves P (run_taps wiring wiring.dispatch_taps m)
        × Preserves P (do handled ← wiring.dispatch m; unhandled wiring handled m)
  guarded-Preserves m = (
    run_taps-Preserves wiring.dispatch_taps m taps_keep,
    bind-Preserves P (wiring.dispatch m) (λ handled. unhandled wiring handled m) (dispatch_keeps m)
        (λ handled. unhandled-Preserves handled m),
  )

  pub send-Preserves : (m : Message) → Preserves P (send wiring m)
  unfolding send
  send-Preserves m =
      bind-Preserves P (run_taps wiring wiring.dispatch_taps m) _ (guarded-Preserves m).0 (λ _.
        catching-Preserves P (do handled ← wiring.dispatch m; unhandled wiring handled m)
          (failed wiring m) (guarded-Preserves m).1 (failed-Preserves m))

  failed-QuietWhere :
      (m : Message)
      → ((wiring.same wiring.channel wiring.invalid_message_channel ≡ true)
          ⊎ ((headers : Object Value)
              → QuietWhere P (wiring.send_to wiring.invalid_message_channel m headers)))
      → (e : Value) → QuietWhere P (failed wiring m e)
  unfolding failed
  failed-QuietWhere m (inl t) e w p v = rw t (pure-IsQuiet tt w v)
  failed-QuietWhere m (inr q) e w p v =
      elim (Bool-cases (wiring.same wiring.channel wiring.invalid_message_channel)) [
        | inl t ↦ rw t (pure-IsQuiet tt w v)
        | inr f ↦ rw f (q _ w p v)
      ]

  run_taps-QuietWhere :
      (taps : Option (Message → Js W Bool)) (m : Message)
      → TapsKeep P taps
      → QuietWhere P (run_taps wiring taps m)
  unfolding run_taps
  run_taps-QuietWhere none m h = λ w p. pure-IsQuiet tt w
  run_taps-QuietWhere (some t) m h =
      catching-QuietWhere P (t m >> pure tt) (λ e. pure tt)
        (bind-Preserves P (t m) (λ _. pure tt) (h m) (λ _ w p. p)) (λ e w p. pure-IsQuiet tt w)

  -- Sending does not throw where the property holds, if sending to the invalid message channel does
  -- not.
  pub send-QuietWhere :
      (m : Message)
      → ((wiring.same wiring.channel wiring.invalid_message_channel ≡ true)
          ⊎ ((headers : Object Value)
              → QuietWhere P (wiring.send_to wiring.invalid_message_channel m headers)))
      → QuietWhere P (send wiring m)
  unfolding send
  send-QuietWhere m q =
      bind-QuietWhere P (run_taps wiring wiring.dispatch_taps m) _ (guarded-Preserves m).0
        (run_taps-QuietWhere wiring.dispatch_taps m taps_keep)
        (λ _.
          catching-QuietWhere P (do handled ← wiring.dispatch m; unhandled wiring handled m)
            (failed wiring m) (guarded-Preserves m).1 (failed-QuietWhere m q))
