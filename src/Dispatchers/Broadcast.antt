-- ===== src/Dispatchers/Broadcast.antt =====
-- channels/dispatchers/broadcast.js. `deliver h` is `handlerResolver(handler).handle(message)`.
pub mod Delivery
pub mod Preserves
use msgs.Base.{Bool, true, false, List, [], ◌∷◌, ◌++◌}
use msgs.Js.Value.{Value, to_values}
use msgs.Js.Value
use msgs.Js.Effect.{Js, pure, throws, lift, catching, ◌>>=◌, ◌>>◌}
use msgs.Dispatchers.Subscribable.{Handlers, handlers_copy}

module _ {ℓ κ} {W : Type ℓ} {H : Type κ} (deliver : H → Js W (Unit {0})) where
  -- `handlers.forEach(function (handler) { try { … } catch (e) { errors.push(e); } })`
  unfoldable pub visit : List Value → List H → Js W (List Value)
  visit errors [] = pure errors
  visit errors (h ∷ hs) = do
    errors' ← catching (deliver h >>= λ _. pure errors) (λ e. pure (errors ++ e ∷ []))
    visit errors' hs

  -- what follows the loop
  report : List Value → Js W Bool
  report [] = pure true
  report (e ∷ es) = throws (Value.array (to_values (e ∷ es)))

  send_to_all : List H → Js W Bool
  unfolding report
  send_to_all [] = pure false
  send_to_all (h ∷ hs) = do errors ← visit [] (h ∷ hs); report errors

  -- `dispatcher.dispatch`, on the handlers at the time of the call
  unfoldable pub dispatch : Handlers H → Js W Bool
  unfolding send_to_all handlers_copy
  dispatch handlers = do hs ← lift (handlers_copy handlers); send_to_all hs
