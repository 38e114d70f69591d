-- ===== src/Dispatchers/Subscribable.antt =====
-- channels/dispatchers/_subscribable.js: the list of handlers that a dispatcher closes over.
pub mod Histories
use msgs.Base.{
  ℕ, suc, Bool, true, false, List, [], ◌∷◌, ◌++◌, Option, none, some, Eq, ◌==◌, take, drop,
}
use msgs.Js.Value.{type_error}
use msgs.Js.Effect.{Outcome, ok, throw}

-- `var handlers`: undefined once the dispatcher is destroyed
abbrev pub Handlers {ℓ} : Type ℓ → Type ℓ
Handlers H = Option (List H)

abbrev pub subscribable_dispatcher {ℓ} : {H : Type ℓ} → Handlers H
subscribable_dispatcher = some []

module _ {ℓ} {H : Type ℓ} ⦃e : Eq H⦄ where
  -- `handlers.indexOf(handler)`; none is -1
  unfoldable pub index_of : List H → H → Option ℕ
  index_of [] h = none
  index_of (x ∷ xs) h = elim (x == h) [
    | true ↦ some 0
    | false ↦ elim (index_of xs h) [ none ↦ none | some i ↦ some (suc i) ]
  ]

  -- `handlers.slice(0, index).concat(handlers.slice(index + 1))`
  cut_out : List H → Option ℕ → List H
  cut_out hs none = hs
  cut_out hs (some i) = take i hs ++ drop (suc i) hs

  unfoldable pub subscribe : Handlers H → H → Outcome (Handlers H)
  unfolding index_of
  subscribe none h = throw type_error
  subscribe (some hs) h = elim (index_of hs h) [
    | some i ↦ ok (some hs)
    | none ↦ ok (some (hs ++ h ∷ []))
  ]

  unfoldable pub unsubscribe : Handlers H → H → Outcome (Handlers H)
  unfolding index_of cut_out
  unsubscribe none h = throw type_error
  unsubscribe (some hs) h = ok (some (cut_out hs (index_of hs h)))

module _ {ℓ} {H : Type ℓ} where
  unfoldable pub subscribed : Handlers H → Outcome Bool
  subscribed none = throw type_error
  subscribed (some []) = ok false
  subscribed (some (h ∷ hs)) = ok true

  unfoldable pub destroy : Handlers H → Handlers H
  destroy hs = none

  -- `_handlers`: a copy of the list
  unfoldable pub handlers_copy : Handlers H → Outcome (List H)
  handlers_copy none = throw type_error
  handlers_copy (some hs) = ok hs
