-- ===== src/System/Places.antt =====
-- What stands at a number in the lists of a program: behind what was there, and where it was written.
use msgs.Base.{ℕ, zero, suc, List, [], ◌∷◌, ◌++◌, ◌≡◌, refl, ap, some, get_elem?, length}
use msgs.System.{set_at}

pub get-set_at {ℓ} :
    {A : Type ℓ} (xs : List A) (b i : ℕ) (x y z : A)
    → get_elem? xs b ≡ some x
    → get_elem? xs i ≡ some z
    → (v : A) × (get_elem? (set_at xs b y) i ≡ some v)
unfolding set_at
get-set_at [] b i x y z p q = absurd (cc p)
get-set_at (a ∷ xs) zero zero x y z p q = (y, refl)
get-set_at (a ∷ xs) zero (suc i) x y z p q = (z, q)
get-set_at (a ∷ xs) (suc b) zero x y z p q = (z, q)
get-set_at (a ∷ xs) (suc b) (suc i) x y z p q = get-set_at xs b i x y z p q

pub get-set_at_self {ℓ} :
    {A : Type ℓ} (xs : List A) (b : ℕ) (x y : A)
    → get_elem? xs b ≡ some x
    → get_elem? (set_at xs b y) b ≡ some y
unfolding set_at
get-set_at_self [] b x y p = absurd (cc p)
get-set_at_self (a ∷ xs) zero x y p = refl
get-set_at_self (a ∷ xs) (suc b) x y p = get-set_at_self xs b x y p

module _ {ℓ} {A : Type ℓ} where
  pub length-snoc : (xs : List A) (y : A) → length (xs ++ y ∷ []) ≡ suc (length xs)
  length-snoc [] y = refl
  length-snoc (x ∷ xs) y = ap suc (length-snoc xs y)

  pub get-append :
      (xs ys : List A) (i : ℕ) (x : A) → get_elem? xs i ≡ some x → get_elem? (xs ++ ys) i ≡ some x
  get-append [] ys i x p = absurd (cc p)
  get-append (y ∷ xs) ys zero x p = p
  get-append (y ∷ xs) ys (suc i) x p = get-append xs ys i x p

  pub get-behind : (xs ys : List A) (y : A) → get_elem? (xs ++ y ∷ ys) (length xs) ≡ some y
  get-behind [] ys y = refl
  get-behind (x ∷ xs) ys y = get-behind xs ys y

  pub get-second :
      (xs ys : List A) (y z : A) → get_elem? (xs ++ y ∷ z ∷ ys) (suc (length xs)) ≡ some z
  get-second [] ys y z = refl
  get-second (x ∷ xs) ys y z = get-second xs ys y z

  pub set-behind : (xs ys : List A) (y v : A) → set_at (xs ++ y ∷ ys) (length xs) v ≡ xs ++ v ∷ ys
  unfolding set_at
  set-behind [] ys y v = refl
  set-behind (x ∷ xs) ys y v = ap (λ zs. x ∷ zs) (set-behind xs ys y v)

  pub set-second :
      (xs ys : List A) (y z v : A)
      → set_at (xs ++ y ∷ z ∷ ys) (suc (length xs)) v ≡ xs ++ y ∷ v ∷ ys
  unfolding set_at
  set-second [] ys y z v = refl
  set-second (x ∷ xs) ys y z v = ap (λ zs. x ∷ zs) (set-second xs ys y z v)

  pub length-set_at : (xs : List A) (i : ℕ) (v : A) → length (set_at xs i v) ≡ length xs
  unfolding set_at
  length-set_at [] i v = refl
  length-set_at (x ∷ xs) zero v = refl
  length-set_at (x ∷ xs) (suc i) v = ap suc (length-set_at xs i v)
