-- ===== src/Js/Preserves.antt =====
-- Calls that keep a property of the state, whether they return or throw.
use msgs.Js.Effect.{
  Js, Outcome, catching, continue, for_each, ok, out_of_fuel, rescue, throw, ◌>>=◌,
}
use msgs.Js.Value.{Value}
use msgs.Base.{List, [], ◌∷◌}

abbrev pub Preserves {ℓ κ μ} : {W : Type ℓ} {A : Type κ} → (W → Type μ) → Js W A → Type (ℓ ⊔ μ)
Preserves {W} P m = (w : W) → P w → P (m w).1

module _ {ℓ κ ν μ} {W : Type ℓ} {A : Type κ} {B : Type ν} (P : W → Type μ) where
  continue-Preserves :
      (f : A → Js W B) (r : Outcome A) (w : W)
      → ((a : A) → Preserves P (f a))
      → P w
      → P (continue f r w).1
  continue-Preserves f (ok a) w q p = q a w p
  continue-Preserves f (throw v) w q p = p
  continue-Preserves f out_of_fuel w q p = p

  pub bind-Preserves :
      (m : Js W A) (f : A → Js W B)
      → Preserves P m
      → ((a : A) → Preserves P (f a))
      → Preserves P (m >>= f)
  bind-Preserves m f q r w p = continue-Preserves f (m w).0 (m w).1 r (q w p)

module _ {ℓ κ μ} {W : Type ℓ} {A : Type κ} (P : W → Type μ) where
  rescue-Preserves :
      (h : Value → Js W A) (r : Outcome A) (w : W)
      → ((v : Value) → Preserves P (h v))
      → P w
      → P (rescue h r w).1
  rescue-Preserves h (ok a) w q p = p
  rescue-Preserves h (throw v) w q p = q v w p
  rescue-Preserves h out_of_fuel w q p = p

  pub catching-Preserves :
      (m : Js W A) (h : Value → Js W A)
      → Preserves P m
      → ((v : Value) → Preserves P (h v))
      → Preserves P (catching m h)
  catching-Preserves m h q r w p = rescue-Preserves h (m w).0 (m w).1 r (q w p)

module _ {ℓ κ μ} {W : Type ℓ} {A : Type κ} (P : W → Type μ) where
  pub for_each-Preserves :
      (f : A → Js W (Unit {0})) (xs : List A)
      → ((a : A) → Preserves P (f a))
      → Preserves P (for_each f xs)
  unfolding for_each
  for_each-Preserves f [] q = λ w p. p
  for_each-Preserves f (x ∷ xs) q =
      bind-Preserves P (f x) (λ _. for_each f xs) (q x) (λ _. for_each-Preserves f xs q)
