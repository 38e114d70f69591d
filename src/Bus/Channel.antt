-- ===== src/Bus/Channel.antt =====
-- msgs.js, `_channel`: what `send` does with the taps, the dispatcher and the two channels of the
-- bus for messages that cannot be delivered.
pub mod Quiet
pub mod Preserves
pub mod Delivered
use msgs.Js.Value
use msgs.Base.{Bool, Option, [], false, if◌then◌else◌, none, some, true, ◌∷◌}
use msgs.Js.Text.{text}
use msgs.Js.Effect.{Js, catching, pure, ◌>>=◌, ◌>>◌}
use msgs.Js.Value.{Value}
use msgs.Js.Object.{Object}
use msgs.Message.{Message}

-- What one channel's `send` calls. `send_to c m headers` is `this.send(c, m, headers)` of the bus,
-- `dispatch` and `dispatch_taps` those of the dispatchers, and `none` stands for no taps.
pub record Wiring (W C : Type 0) : Type 0 where
  pub dispatch_taps : Option (Message → Js W Bool)
  pub dispatch : Message → Js W Bool
  pub channel : C
  pub dead_letter_channel : C
  pub invalid_message_channel : C
  pub same : C → C → Bool
  pub send_to : C → Message → Object Value → Js W (Unit {0})

module _ {W C : Type 0} (wiring : Wiring W C) where
  open wiring use {
    dispatch_taps, dispatch, channel, dead_letter_channel, invalid_message_channel, same, send_to,
  }

  run_taps : Option (Message → Js W Bool) → Message → Js W (Unit {0})
  run_taps none m = pure tt
  run_taps (some taps) m = catching (taps m >> pure tt) (λ e. pure tt)

  unhandled : Bool → Message → Js W (Unit {0})
  unhandled true m = pure tt
  unhandled false m =
      if same channel dead_letter_channel then pure tt else send_to dead_letter_channel m []

  failed : Message → Value → Js W (Unit {0})
  failed m e =
      if same channel invalid_message_channel
      then pure tt
      else send_to invalid_message_channel m ((text "error", e) ∷ [])

  unfoldable pub send : Message → Js W (Unit {0})
  unfolding run_taps unhandled failed
  send m = do
    run_taps dispatch_taps m
    catching (do handled ← dispatch m; unhandled handled m) (failed m)
