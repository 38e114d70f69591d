-- ===== src/Dispatchers/Unicast/Preserves.antt =====
-- channels/dispatchers/unicast.js: a property that every handler and the load balancer keep.
use msgs.Base.{List, [], ◌∷◌, Option, true}
use msgs.Js.Effect.{Js, lift, pure, ◌>>◌}
use msgs.Js.Preserves.{Preserves, bind-Preserves}
use msgs.Dispatchers.Subscribable.{Handlers, handlers_copy}
use msgs.Dispatchers.Unicast.{dispatch, hand_to_one}

module _ {ℓ κ μ} {W : Type ℓ} {H : Type κ} (P : W → Type μ) (deliver : Option H → Js W (Unit {0}))
    (load_balancer : List H → Js W (Option H)) (keeps : (h : Option H) → Preserves P (deliver h))
    (choice_keeps : (hs : List H) → Preserves P (load_balancer hs)) where
  hand_to_one-Preserves : (hs : List H) → Preserves P (hand_to_one deliver load_balancer hs)
  unfolding hand_to_one
  hand_to_one-Preserves [] = λ w p. p
  hand_to_one-Preserves (h ∷ hs) =
      bind-Preserves P (load_balancer (h ∷ hs)) (λ o. deliver o >> pure true)
        (choice_keeps (h ∷ hs))
        (λ o. bind-Preserves P (deliver o) (λ _. pure true) (keeps o) (λ _ w p. p))

  pub dispatch-Preserves :
      (handlers : Handlers H) → Preserves P (dispatch deliver load_balancer handlers)
  unfolding dispatch
  dispatch-Preserves handlers =
      bind-Preserves P (lift (handlers_copy handlers)) (hand_to_one deliver load_balancer)
        (λ w p. p) hand_to_one-Preserves
