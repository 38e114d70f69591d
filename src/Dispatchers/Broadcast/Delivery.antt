-- ===== src/Dispatchers/Broadcast/Delivery.antt =====
-- Properties of `dispatch` of channels/dispatchers/broadcast.js.
use msgs.Base.{
  ◌≡◌, refl, Bool, true, List, [], ◌∷◌, ◌++◌, some, append_assoc, append-nil, ◌≢◌, inl, inr,
}
use msgs.Js.Value.{Value, to_values}
use msgs.Js.Effect.{Outcome, ok, throw, out_of_fuel, Js, Outcome-cases}
use msgs.Dispatchers.Broadcast.{visit, report, dispatch}

module _ {ℓ κ} {W : Type ℓ} {H : Type κ} (deliver : H → Js W (Unit {0})) where
  -- The state after each handler has run once, in the order of subscription.
  unfoldable pub after_all : List H → W → W
  after_all [] w = w
  after_all (h ∷ hs) w = after_all hs (deliver h w).1

  abbrev pub error_of : Outcome (Unit {0}) → List Value
  error_of (ok u) = []
  error_of (throw e) = e ∷ []
  error_of out_of_fuel = []

  -- What the handlers throw, in that order.
  unfoldable pub errors_of_all : List H → W → List Value
  errors_of_all [] w = []
  errors_of_all (h ∷ hs) w = error_of (deliver h w).0 ++ errors_of_all hs (deliver h w).1

  -- Every handler comes to an end.
  abbrev pub AllEnd : List H → W → Type 0
  AllEnd [] w = Unit
  AllEnd (h ∷ hs) w = ((deliver h w).0 ≢ out_of_fuel) × AllEnd hs (deliver h w).1

  visit_lem :
      (errors : List Value) (hs : List H) (w : W)
      → AllEnd hs w
      → visit deliver errors hs w ≡ (ok (errors ++ errors_of_all hs w), after_all hs w)
  unfolding visit after_all errors_of_all
  visit_lem errors [] w a = rw append-nil refl
  visit_lem errors (h ∷ hs) w (a, rest) = elim (Outcome-cases (deliver h w).0) [
    | inl (u, p) ↦ rw (p, visit_lem errors hs (deliver h w).1 rest) refl
    | inr (inl (e, p)) ↦
        rw (p, visit_lem (errors ++ e ∷ []) hs (deliver h w).1 rest, append_assoc) refl
    | inr (inr p) ↦ absurd (a p)
  ]

  abbrev pub reported : List Value → Outcome Bool
  reported [] = ok true
  reported (e ∷ es) = throw (Value.array (to_values (e ∷ es)))

  -- If every handler comes to an end, a broadcast to at least one handler runs every handler once, in
  -- the order of subscription and whatever the others throw; it returns true if none throws, and
  -- otherwise throws the array of what they throw.
  pub dispatch-all :
      (h : H) (hs : List H) (w : W)
      → AllEnd (h ∷ hs) w
      → dispatch deliver (some (h ∷ hs)) w
        ≡ (reported (errors_of_all (h ∷ hs) w), after_all (h ∷ hs) w)
  unfolding dispatch report
  dispatch-all h hs w a = rw (visit_lem [] (h ∷ hs) w a) (go (errors_of_all (h ∷ hs) w))
    where
      go :
          (es : List Value)
          → report deliver es (after_all (h ∷ hs) w) ≡ (reported es, after_all (h ∷ hs) w)
      go [] = refl
      go (e ∷ es) = refl
