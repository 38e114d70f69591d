-- ===== src/Js/Effect.antt =====
-- Code that reads and writes a state and may throw. What was written before a throw stays
-- written. A run may also need more fuel than it has, which no `catch` sees.
use msgs.Base.{List, [], ◌∷◌, Option, none, some, inl, inr, refl, ◌≡◌, ◌⊎◌}
use msgs.Js.Value.{Value, type_error}

pub data Outcome {ℓ} (A : Type ℓ) : Type ℓ where
  ok : A → Outcome A
  throw : Value → Outcome A
  out_of_fuel : Outcome A

-- To split on how a call ends and keep the equation.
pub Outcome-cases {ℓ} :
    {A : Type ℓ} (r : Outcome A)
    → ((a : A) × (r ≡ ok a)) ⊎ ((e : Value) × (r ≡ throw e)) ⊎ (r ≡ out_of_fuel)
Outcome-cases (ok a) = inl (a, refl)
Outcome-cases (throw e) = inr (inl (e, refl))
Outcome-cases out_of_fuel = inr (inr refl)

abbrev pub Js {ℓ κ} : Type ℓ → Type κ → Type (ℓ ⊔ κ)
Js W A = W → Outcome A × W

module _ {ℓ κ} {W : Type ℓ} {A : Type κ} where
  abbrev pub pure : A → Js W A
  pure a w = (ok a, w)

  abbrev pub throws : Value → Js W A
  throws e w = (throw e, w)

  -- A value that has been computed, or an error that is thrown.
  abbrev pub lift : Outcome A → Js W A
  lift r w = (r, w)

  -- What a read of a property of `undefined` does.
  abbrev pub or_type_error : Option A → Js W A
  or_type_error none = throws type_error
  or_type_error (some a) = pure a

  abbrev pub rescue : (Value → Js W A) → Outcome A → W → Outcome A × W
  rescue h (throw e) w = h e w
  rescue h (ok a) w = (ok a, w)
  rescue h out_of_fuel w = (out_of_fuel, w)

  -- `try { m } catch (e) { h(e) }`
  abbrev pub catching : Js W A → (Value → Js W A) → Js W A
  catching m h w = let (r, w') = m w in rescue h r w'

module _ {ℓ κ μ} {W : Type ℓ} {A : Type κ} {B : Type μ} where
  abbrev pub continue : (A → Js W B) → Outcome A → W → Outcome B × W
  continue f (ok a) w = f a w
  continue f (throw e) w = (throw e, w)
  continue f out_of_fuel w = (out_of_fuel, w)

  infixl 5 ◌>>=◌
  abbrev pub ◌>>=◌ : Js W A → (A → Js W B) → Js W B
  ◌>>=◌ m f w = let (r, w') = m w in continue f r w'

  infixl 5 ◌>>◌
  abbrev pub ◌>>◌ : Js W A → Js W B → Js W B
  m >> k = m >>= λ _. k

module _ {ℓ κ} {W : Type ℓ} {A : Type κ} where
  -- `xs.forEach(f)`
  unfoldable pub for_each : (A → Js W (Unit {0})) → List A → Js W (Unit {0})
  for_each f [] = pure tt
  for_each f (x ∷ xs) = f x >> for_each f xs

abbrev pub get_state {ℓ} : {W : Type ℓ} → Js W W
get_state w = (ok w, w)

abbrev pub set_state {ℓ} : {W : Type ℓ} → W → Js W (Unit {0})
set_state w' w = (ok tt, w')
