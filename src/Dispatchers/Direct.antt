-- ===== src/Dispatchers/Direct.antt =====
-- channels/dispatchers/direct.js: one fixed handler. `deliver` is
-- `handlerResolver(handler).handle(message)`.
use msgs.Js.Effect.{Js, pure, ◌>>◌}
use msgs.Base.{Bool, true}

module _ {ℓ} {W : Type ℓ} where
  unfoldable pub dispatch : Js W (Unit {0}) → Js W Bool
  dispatch deliver = do deliver; pure true
