-- ===== src/Dispatchers/Exchange/Literal.antt =====
-- channels/dispatchers/exchange.js with the literal matcher, the default of `exchangeChannel`.

use msgs.Dispatchers.Exchange.{dispatch, matching, literal_matcher, Topics}
use msgs.Js.Value.{Value, to_values}
use msgs.Js.Object.{Object, get, has, keys}
use msgs.Js.Effect.{Js, Outcome, ok, out_of_fuel, pure, throw}
use msgs.Base.{
  Bool, [], arith, eq_iff, false, none, refl, some, true, ◌∷◌, ◌≡◌, Option-cases, inl, inr, nat_eq,
}
use msgs.Js.Object.Laws.{Distinct, has_of_get, not_has_of_get}
use msgs.Js.Text.{Str, str_eq}

module _ {W D : Type 0} (topics : W → Topics D) (send : D → Js W Bool) where
  abbrev literal : Str → Value → Js W Bool
  literal t topic = pure (literal_matcher t topic)

  matching_absent :
      (ts : Object D) (t : Str) (w : W)
      → has ts t ≡ false
      → matching topics literal send (Value.str t) (keys ts) w ≡ (ok [], w)
  unfolding matching has literal_matcher
  matching_absent [] t w p = refl
  matching_absent ((j, d) ∷ ts) t w p = ground (arith, matching_absent ts t w)

  matching_present :
      (ts : Object D) (t : Str) (w : W)
      → Distinct ts
      → has ts t ≡ true
      → matching topics literal send (Value.str t) (keys ts) w ≡ (ok (t ∷ []), w)
  unfolding matching has literal_matcher
  matching_present [] t w v p = cc
  matching_present ((j, d) ∷ ts) t w v p =
      ground (arith, eq_iff j t, matching_absent ts t w, matching_present ts t w)

  -- What a failing topic dispatcher throws is wrapped in an array.
  abbrev pub wrapped : Outcome Bool × W → Outcome Bool × W
  wrapped (ok b, w) = (ok true, w)
  wrapped (throw e, w) = (throw (Value.array (to_values (e ∷ []))), w)
  wrapped (out_of_fuel, w) = (out_of_fuel, w)

  -- With the literal matcher, on topics of distinct names, a message with a string topic goes to the
  -- dispatcher of that topic and to no other: it is handled if that dispatcher returns, what that
  -- dispatcher throws is thrown in an array, and the message is not handled if the topic has none.
  pub dispatch-literal :
      (ts : Object D) (t : Str) (w : W)
      → topics w ≡ some ts
      → Distinct ts
      → dispatch topics literal send (Value.str t) w
        ≡ (elim (get ts t) [ none ↦ (ok false, w) | some d ↦ wrapped (send d w) ])
  unfolding dispatch
  dispatch-literal ts t w p v = elim (Option-cases (get ts t)) [
    | inl q ↦ ground (arith, p, q, matching_absent ts t w (not_has_of_get ts t q))
    | inr (d, q) ↦ ground (arith, p, q, matching_present ts t w v (has_of_get ts t d q))
  ]
