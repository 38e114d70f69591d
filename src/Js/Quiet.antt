-- ===== src/Js/Quiet.antt =====
-- Calls that do not throw.
use msgs.Js.Effect.{Js, Outcome, catching, continue, ok, out_of_fuel, pure, rescue, throw, ◌>>=◌}
use msgs.Js.Value.{Value}
use msgs.Base.{◌≢◌, refl}
use msgs.Js.Preserves.{Preserves}

-- Whatever the state, the call does not throw.
abbrev pub IsQuiet {ℓ κ} : {W : Type ℓ} {A : Type κ} → Js W A → Type (ℓ ⊔ κ)
IsQuiet {W} m = (w : W) (e : Value) → (m w).0 ≢ throw e

module _ {ℓ κ} {W : Type ℓ} {A : Type κ} where
  pub pure-IsQuiet : (a : A) → IsQuiet (pure {W = W} a)
  pure-IsQuiet a w e p = cc

  rescue-IsQuiet :
      (h : Value → Js W A) (r : Outcome A) (w : W) (e : Value)
      → ((v : Value) → IsQuiet (h v))
      → (rescue h r w).0 ≢ throw e
  rescue-IsQuiet h (ok a) w e q = λ p. cc
  rescue-IsQuiet h (throw v) w e q = q v w e
  rescue-IsQuiet h out_of_fuel w e q = λ p. cc

  -- A call whose handler does not throw.
  pub catching-IsQuiet :
      (m : Js W A) (h : Value → Js W A) → ((v : Value) → IsQuiet (h v)) → IsQuiet (catching m h)
  catching-IsQuiet m h q w e = rescue-IsQuiet h (m w).0 (m w).1 e q

module _ {ℓ κ μ} {W : Type ℓ} {A : Type κ} {B : Type μ} where
  continue-IsQuiet :
      (f : A → Js W B) (r : Outcome A) (w : W) (e : Value)
      → r ≢ throw e
      → ((a : A) → IsQuiet (f a))
      → (continue f r w).0 ≢ throw e
  continue-IsQuiet f (ok a) w e h q = q a w e
  continue-IsQuiet f (throw v) w e h q = λ p. h (cc)
  continue-IsQuiet f out_of_fuel w e h q = λ p. cc

  pub bind-IsQuiet :
      (m : Js W A) (f : A → Js W B) → IsQuiet m → ((a : A) → IsQuiet (f a)) → IsQuiet (m >>= f)
  bind-IsQuiet m f h q w e = continue-IsQuiet f (m w).0 (m w).1 e (h w e) q

-- The call does not throw in a state with this property.
abbrev pub QuietWhere {ℓ κ μ} : {W : Type ℓ} {A : Type κ} → (W → Type μ) → Js W A → Type (ℓ ⊔ κ ⊔ μ)
QuietWhere {W} P m = (w : W) → P w → (e : Value) → (m w).0 ≢ throw e

module _ {ℓ κ μ} {W : Type ℓ} {A : Type κ} (P : W → Type μ) where
  rescue-QuietWhere :
      (h : Value → Js W A) (r : Outcome A) (w : W)
      → P w
      → ((v : Value) → QuietWhere P (h v))
      → (e : Value) → (rescue h r w).0 ≢ throw e
  rescue-QuietWhere h (ok a) w p q e = λ p. cc
  rescue-QuietWhere h (throw v) w p q e = q v w p e
  rescue-QuietWhere h out_of_fuel w p q e = λ p. cc

  pub catching-QuietWhere :
      (m : Js W A) (h : Value → Js W A)
      → Preserves P m
      → ((v : Value) → QuietWhere P (h v))
      → QuietWhere P (catching m h)
  catching-QuietWhere m h keeps q w p = rescue-QuietWhere h (m w).0 (m w).1 (keeps w p) q

module _ {ℓ κ ν μ} {W : Type ℓ} {A : Type κ} {B : Type ν} (P : W → Type μ) where
  continue-QuietWhere :
      (f : A → Js W B) (r : Outcome A) (w : W)
      → ((e : Value) → r ≢ throw e)
      → P w
      → ((a : A) → QuietWhere P (f a))
      → (e : Value) → (continue f r w).0 ≢ throw e
  continue-QuietWhere f (ok a) w h p q e = q a w p e
  continue-QuietWhere f (throw v) w h p q e = λ t. h v refl
  continue-QuietWhere f out_of_fuel w h p q e = λ t. cc

  pub bind-QuietWhere :
      (m : Js W A) (f : A → Js W B)
      → Preserves P m
      → QuietWhere P m
      → ((a : A) → QuietWhere P (f a))
      → QuietWhere P (m >>= f)
  bind-QuietWhere m f keeps quiet q w p =
      continue-QuietWhere f (m w).0 (m w).1 (quiet w p) (keeps w p) q
