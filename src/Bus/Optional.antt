-- ===== src/Bus/Optional.antt =====
-- msgs.js, `optionalName`: a name that may be left out.
use msgs.Base.{Bool, Bool-cases, List, [], false, if◌then◌else◌, inl, inr, refl, true, ◌∷◌, ◌≡◌}
use msgs.Js.Value.{Value}

abbrev pub is_string : Value → Bool
is_string (Value.str s) = true
is_string _ = false

-- `typeof name !== 'string'`; a name that is not given is undefined
unfoldable pub has_name : List Value → Bool
has_name [] = false
has_name (v ∷ vs) = is_string v

unfoldable pub optional_name {ℓ} : {A : Type ℓ} → (List Value → A) → List Value → A
unfolding has_name
optional_name func args = if has_name args then func args else func (Value.str [] ∷ args)

-- A function of optional name can be made one again, for the same function.
pub optional_name-optional_name {ℓ} :
    {A : Type ℓ} (func : List Value → A) (args : List Value)
    → optional_name (optional_name func) args ≡ optional_name func args
unfolding optional_name has_name
optional_name-optional_name func args = elim (Bool-cases (has_name args)) [
  | inl t ↦ rw (optional_name, t) refl
  | inr f ↦ rw (optional_name, f) refl
]
