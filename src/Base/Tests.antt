-- ===== src/Base/Tests.antt =====
-- Boolean tests, the conditional, and equality as an interface.
use Prim.Native.Nat.{ℕ, ◌≤◌, ◌<◌, compare, Ordering}
use mathlib.Core.Path.{◌≡◌, refl}
use mathlib.Core.Logic.{◌↔◌, ◌⊎◌, inl, inr, ◌≢◌}
use mathlib.Core.Bool.{Bool, true, false, ◌&&◌}
use mathlib.Core.Option.{Option, none, some}
use mathlib.Core.List.{List, [], ◌∷◌}
use native.Mathlib.Omega.{arith}

abbrev pub ltb : ℕ → ℕ → Bool
ltb a b = elim (compare a b) [ Ordering.lt ↦ true | _ ↦ false ]

abbrev pub leb : ℕ → ℕ → Bool
leb a b = elim (compare a b) [ Ordering.gt ↦ false | _ ↦ true ]

abbrev pub eqb : ℕ → ℕ → Bool
eqb a b = elim (compare a b) [ Ordering.eq ↦ true | _ ↦ false ]

infix 1 if◌then◌else◌
abbrev pub if◌then◌else◌ {ℓ} : {A : Type ℓ} → Bool → A → A → A
if true then x else y = x
if false then x else y = y

pub eqb_iff : (a b : ℕ) → (eqb a b ≡ true) ↔ (a ≡ b)
eqb_iff a b = ground arith

pub leb→le : (a b : ℕ) → leb a b ≡ true → a ≤ b
leb→le a b h = ground arith

pub not-leb→lt : (a b : ℕ) → leb a b ≡ false → b < a
not-leb→lt a b h = ground arith

-- To split on a computed value and keep the equation.
pub Bool-cases : (b : Bool) → (b ≡ true) ⊎ (b ≡ false)
Bool-cases true = inl refl
Bool-cases false = inr refl

pub Option-cases {ℓ} : {A : Type ℓ} (o : Option A) → (o ≡ none) ⊎ ((a : A) × (o ≡ some a))
Option-cases none = inl refl
Option-cases (some a) = inr (a, refl)

-- The test `===`, for a type of which a section only needs to know that the test decides equality.
pub record Eq {ℓ} (V : Type ℓ) : Type ℓ where
  pub is_same : V → V → Bool
  pub is_same_iff : (v w : V) → (is_same v w ≡ true) ↔ (v ≡ w)

module _ {ℓ} {V : Type ℓ} ⦃s : Eq V⦄ where
  infix 50 ◌==◌
  abbrev pub ◌==◌ : V → V → Bool
  v == w = s.is_same v w

  pub eq_iff : (v w : V) → ((v == w) ≡ true) ↔ (v ≡ w)
  eq_iff v w = s.is_same_iff v w

  pub eq_refl : (v : V) → (v == v) ≡ true
  eq_refl v = (s.is_same_iff v v).1 refl

  pub ne→eq-false : (v w : V) → v ≢ w → (v == w) ≡ false
  ne→eq-false v w h = elim (Bool-cases (v == w)) [
    | inl t ↦ absurd (h ((s.is_same_iff v w).0 t))
    | inr f ↦ f
  ]

  abbrev pub list_beq : List V → List V → Bool
  list_beq [] [] = true
  list_beq (v ∷ vs) (w ∷ ws) = (v == w) && list_beq vs ws
  list_beq _ _ = false

  list_beq→eq : (vs ws : List V) → list_beq vs ws ≡ true → vs ≡ ws
  list_beq→eq [] [] h = refl
  list_beq→eq (v ∷ vs) (w ∷ ws) h = ground (arith, eq_iff v w, list_beq→eq vs ws)
  list_beq→eq [] (w ∷ ws) h = cc
  list_beq→eq (v ∷ vs) [] h = cc

  list_beq_refl : (vs : List V) → list_beq vs vs ≡ true
  list_beq_refl [] = refl
  list_beq_refl (v ∷ vs) = rw (eq_refl v) (list_beq_refl vs)

  pub list_beq_iff : (vs ws : List V) → (list_beq vs ws ≡ true) ↔ (vs ≡ ws)
  list_beq_iff vs ws = (list_beq→eq vs ws, λ p. rw p (list_beq_refl ws))

-- Numbers and lists, and so the strings.
instance abbrev pub nat_eq : Eq ℕ
nat_eq = record { is_same = eqb; is_same_iff = eqb_iff }

instance abbrev pub list_eq {ℓ} : {A : Type ℓ} ⦃e : Eq A⦄ → Eq (List A)
list_eq = record { is_same = list_beq; is_same_iff = list_beq_iff }
