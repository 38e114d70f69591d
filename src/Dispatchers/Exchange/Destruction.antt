-- ===== src/Dispatchers/Exchange/Destruction.antt =====
-- channels/dispatchers/exchange.js: `destroy`.
use msgs.Base.{
  Eq, some, none, List, [], ◌∷◌, ◌≡◌, refl, ◌==◌, Bool-cases, inl, inr, nat_eq, eq_refl,
}
use msgs.Js.Text.{Str, str_eq}
use msgs.Js.Effect.{ok, for_each, set_state, ◌>>◌}
use msgs.Js.Object.{Object, get, put, keys}
use msgs.Js.Object.Laws.{get-put}
use msgs.Dispatchers.Subscribable.{Handlers}
use msgs.Dispatchers.Exchange.{destroy, subscribable_topics, on_topic, Topics}

module _ {H : Type 0} ⦃e : Eq H⦄ where
  -- Each of these keys has a dispatcher.
  Present : List Str → Object (Handlers H) → Type 0
  Present [] ts = Unit
  Present (k ∷ ks) ts = ((d : Handlers H) × (get ts k ≡ some d)) × Present ks ts

  put-Present :
      (ks : List Str) (ts : Object (Handlers H)) (k : Str) (d : Handlers H)
      → Present ks ts
      → Present ks (put ts k d)
  unfolding Present
  put-Present [] ts k d p = tt
  put-Present (j ∷ ks) ts k d ((v, p), ps) = (
    elim (Bool-cases (k == j)) [
      | inl t ↦ (d, rw (get-put ts k j d, t) refl)
      | inr f ↦ (v, rw (get-put ts k j d, f) p)
    ],
    put-Present ks ts k d ps,
  )

  cons-Present :
      (ks : List Str) (ts : Object (Handlers H)) (k : Str) (d : Handlers H)
      → Present ks ts
      → Present ks ((k, d) ∷ ts)
  unfolding Present get
  cons-Present [] ts k d p = tt
  cons-Present (j ∷ ks) ts k d ((v, p), ps) = (
    elim (Bool-cases (k == j)) [ inl t ↦ (d, rw t refl) | inr f ↦ (v, rw f p) ],
    cons-Present ks ts k d ps,
  )

  keys-Present : (ts : Object (Handlers H)) → Present (keys ts) ts
  unfolding Present get
  keys-Present [] = tt
  keys-Present ((k, d) ∷ ts) =
      ((d, rw (eq_refl k) refl), cons-Present (keys ts) ts k d (keys-Present ts))

  each_lem :
      (ks : List Str) (ts : Object (Handlers H))
      → Present ks ts
      → (for_each (λ topic. on_topic topic (λ d. (ok tt, none))) ks >> set_state none) (some ts)
        ≡ (ok tt, none)
  unfolding Present for_each on_topic
  each_lem [] ts p = refl
  each_lem (k ∷ ks) ts ((d, p), ps) =
      rw (p, on_topic) (each_lem ks (put ts k none) (put-Present ks ts k none ps))

  -- `destroy` does not throw, and leaves no topics.
  pub destroy-none : (ts : Topics (Handlers H)) → destroy subscribable_topics ts ≡ (ok tt, none)
  unfolding destroy subscribable_topics
  destroy-none none = refl
  destroy-none (some ts) = each_lem (keys ts) ts (keys-Present ts)
