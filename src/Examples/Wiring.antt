-- ===== src/Examples/Wiring.antt =====
-- A wire context whose component listens on two channels. A promise is its value at once, and the state
-- lists the adapters that are made.
use msgs.Base.{List, [], ◌∷◌, ◌++◌, ◌≡◌, refl, nat_eq}
use msgs.Js.Text.{Str, text}
use msgs.Js.Value.{Value, of_values, to_values}
use msgs.Js.Object.{get}
use msgs.Js.Effect.{Js, ok, pure, ◌>>=◌}
use msgs.Wire.Facet.{Promises, outbound_adapter_facet}

abbrev Made : Type 0
Made = List (Str × Value)

abbrev each : {A B : Type 0} → List A → (A → Js Made B) → Js Made (List B)
each [] f = pure []
each (x ∷ xs) f = do y ← f x; ys ← each xs f; pure (y ∷ ys)

abbrev at_once : Promises Made
at_once = record {
  Promise = λ A. A;
  map_each = each;
  and_then = λ x f. f x;
  settle = λ x resolve reject. resolve x;
}

abbrev targets_of : Value → List Value
targets_of (Value.array vs) = of_values vs
targets_of v = v ∷ []

adapters_in_order :
    outbound_adapter_facet at_once targets_of
      (λ target. pure target)
      (λ func channel made. (ok func, made ++ (channel, func) ∷ []))
      (λ handlers. pure tt)
      (λ e. pure tt)
      ((text "in", Value.array (to_values (Value.num 1 ∷ Value.num 2 ∷ [])))
        ∷ (text "out", Value.num 3)
        ∷ [])
      []
    ≡ (ok tt, (text "in", Value.num 1) ∷ (text "in", Value.num 2) ∷ (text "out", Value.num 3) ∷ [])
unfolding outbound_adapter_facet get
adapters_in_order = refl
