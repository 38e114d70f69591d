-- ===== src/Bus/Channel/Delivered.antt =====
-- msgs.js, `_channel`: `send` of a channel without taps, when the dispatcher handles the message.
use msgs.Bus.Channel.{run_taps, unhandled, Wiring}
use msgs.Bus.Channel
use msgs.Base.{Bool, none, refl, true, ◌≡◌}
use msgs.Js.Effect.{Js, ok}
use msgs.Message.{Message}

module _ {W C : Type 0} (dispatch : Message → Js W Bool) (wiring : Wiring W C) where
  pub send-handled :
      (m : Message) (w w' : W)
      → dispatch m w ≡ (ok true, w')
      → Channel.send (record wiring { dispatch_taps = none; dispatch = dispatch }) m w ≡ (ok tt, w')
  unfolding Channel.send run_taps unhandled
  send-handled m w w' p = rw p refl
