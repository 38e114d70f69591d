-- ===== src/Dispatchers/Broadcast/Preserves.antt =====
-- channels/dispatchers/broadcast.js: a property that every handler keeps.
use msgs.Js.Effect.{Js, catching, lift, pure, ◌>>=◌}
use msgs.Js.Preserves.{Preserves, bind-Preserves, catching-Preserves}
use msgs.Js.Value.{Value}
use msgs.Dispatchers.Subscribable.{Handlers, handlers_copy}
use msgs.Dispatchers.Broadcast.{visit, report, dispatch, send_to_all}
use msgs.Base.{List, [], ◌∷◌, ◌++◌}

module _ {ℓ κ μ} {W : Type ℓ} {H : Type κ} (P : W → Type μ) (deliver : H → Js W (Unit {0}))
    (keeps : (h : H) → Preserves P (deliver h)) where
  visit-Preserves : (errors : List Value) (hs : List H) → Preserves P (visit deliver errors hs)
  unfolding visit
  visit-Preserves errors [] = λ w p. p
  visit-Preserves errors (h ∷ hs) =
      bind-Preserves P (catching (deliver h >>= λ _. pure errors) (λ e. pure (errors ++ e ∷ [])))
        (λ errors'. visit deliver errors' hs)
        (catching-Preserves P (deliver h >>= λ _. pure errors) (λ e. pure (errors ++ e ∷ []))
          (bind-Preserves P (deliver h) (λ _. pure errors) (keeps h) (λ _ w p. p)) (λ e w p. p))
        (λ errors'. visit-Preserves errors' hs)

  report-Preserves : (errors : List Value) → Preserves P (report deliver errors)
  unfolding report
  report-Preserves [] w p = p
  report-Preserves (e ∷ es) w p = p

  send_to_all-Preserves : (hs : List H) → Preserves P (send_to_all deliver hs)
  unfolding send_to_all
  send_to_all-Preserves [] = λ w p. p
  send_to_all-Preserves (h ∷ hs) =
      bind-Preserves P (visit deliver [] (h ∷ hs)) (report deliver) (visit-Preserves [] (h ∷ hs))
        report-Preserves

  pub dispatch-Preserves : (handlers : Handlers H) → Preserves P (dispatch deliver handlers)
  unfolding dispatch
  dispatch-Preserves handlers =
      bind-Preserves P (lift (handlers_copy handlers)) (send_to_all deliver) (λ w p. p)
        send_to_all-Preserves
