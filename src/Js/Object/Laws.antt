-- ===== src/Js/Object/Laws.antt =====
-- Lookups after writes, and that the keys stay distinct.
use msgs.Base.{
  ◌≡◌, refl, true, false, [], ◌∷◌, none, some, arith, ◌==◌, eq_iff, Bool-cases, inl, inr,
  if◌then◌else◌, nat_eq,
}
use msgs.Js.Text.{Str, str_eq}
use msgs.Js.Object.{Object, get, has, replace, place, put, delete}

module _ {ℓ} {V : Type ℓ} where
  get-replace :
      (o : Object V) (k j : Str) (v : V)
      → has o k ≡ true
      → get (replace o k v) j ≡ (if k == j then some v else get o j)
  unfolding get has replace
  get-replace [] k j v h = cc
  get-replace ((i, w) ∷ o) k j v h =
      ground (arith, eq_iff i k, eq_iff i j, eq_iff k j, get-replace o k j v)

  get-place :
      (o : Object V) (k j : Str) (v : V)
      → has o k ≡ false
      → get (place o k v) j ≡ (if k == j then some v else get o j)
  unfolding get has place
  get-place [] k j v h = refl
  get-place ((i, w) ∷ o) k j v h =
      ground (arith, eq_iff i k, eq_iff i j, eq_iff k j, get-place o k j v)

  -- A read after a write.
  pub get-put :
      (o : Object V) (k j : Str) (v : V) → get (put o k v) j ≡ (if k == j then some v else get o j)
  get-put o k j v = elim (Bool-cases (has o k)) [
    | inl old ↦ unfold put in rw old (get-replace o k j v old)
    | inr new ↦ unfold put in rw new (get-place o k j v new)
  ]

  pub get_of_not_has : (o : Object V) (k : Str) → (has o k ≡ false) → get o k ≡ none
  unfolding get has
  get_of_not_has [] k h = refl
  get_of_not_has ((i, w) ∷ o) k h = ground (arith, get_of_not_has o k)

  pub get_of_has : (o : Object V) (k : Str) → has o k ≡ true → (v : V) × (get o k ≡ some v)
  unfolding get has
  get_of_has [] k h = absurd (cc h)
  get_of_has ((i, w) ∷ o) k h = elim (Bool-cases (i == k)) [
    | inl same ↦ (w, rw same refl)
    | inr other ↦ let (v, p) = get_of_has o k (ground arith) in (v, rw other p)
  ]

  pub not_has_of_get : (o : Object V) (k : Str) → get o k ≡ none → has o k ≡ false
  unfolding get has
  not_has_of_get [] k h = refl
  not_has_of_get ((i, w) ∷ o) k h = ground (arith, not_has_of_get o k)

  pub has_of_get : (o : Object V) (k : Str) (v : V) → get o k ≡ some v → has o k ≡ true
  unfolding get has
  has_of_get [] k v h = cc
  has_of_get ((i, w) ∷ o) k v h = ground (arith, has_of_get o k v)

  -- No key stands twice.
  abbrev pub Distinct : Object V → Type 0
  Distinct [] = Unit
  Distinct ((k, v) ∷ o) = (has o k ≡ false) × Distinct o

  has-replace : (o : Object V) (k j : Str) (v : V) → has (replace o k v) j ≡ has o j
  unfolding has replace
  has-replace [] k j v = refl
  has-replace ((i, w) ∷ o) k j v = ground (arith, has-replace o k j v)

  replace-Distinct : (o : Object V) (k : Str) (v : V) → Distinct o → Distinct (replace o k v)
  unfolding replace
  replace-Distinct [] k v h = tt
  replace-Distinct ((i, w) ∷ o) k v h = ground (arith, has-replace o k i v, replace-Distinct o k v)

  has-place :
      (o : Object V) (k j : Str) (v : V) → has (place o k v) j ≡ (if k == j then true else has o j)
  unfolding has place
  has-place [] k j v = ground arith
  has-place ((i, w) ∷ o) k j v = ground (arith, has-place o k j v)

  place-Distinct :
      (o : Object V) (k : Str) (v : V) → has o k ≡ false → Distinct o → Distinct (place o k v)
  unfolding has place
  place-Distinct [] k v new h = (refl, tt)
  place-Distinct ((i, w) ∷ o) k v new h =
      ground (arith, has-place o k i v, place-Distinct o k v, eq_iff i k, eq_iff k i)

  -- A write keeps the keys distinct.
  pub put-Distinct : (o : Object V) (k : Str) (v : V) → Distinct o → Distinct (put o k v)
  put-Distinct o k v h = elim (Bool-cases (has o k)) [
    | inl old ↦ unfold put in rw old (replace-Distinct o k v h)
    | inr new ↦ unfold put in rw new (place-Distinct o k v new h)
  ]

  pub get_of_delete : (o : Object V) (k : Str) → Distinct o → get (delete o k) k ≡ none
  unfolding get delete
  get_of_delete [] k h = refl
  get_of_delete ((i, w) ∷ o) k h = ground (arith, eq_iff i k, get_of_not_has o i, get_of_delete o k)

  -- A read after a deletion, where no key stands twice.
  pub get-delete :
      (o : Object V) (k j : Str)
      → Distinct o
      → get (delete o k) j ≡ (if k == j then none else get o j)
  unfolding get delete
  get-delete [] k j h = ground arith
  get-delete ((i, w) ∷ o) k j h =
      ground (arith, eq_iff i k, eq_iff i j, eq_iff k j, get_of_not_has o i, get-delete o k j)

  has-delete : (o : Object V) (k j : Str) → has o j ≡ false → has (delete o k) j ≡ false
  unfolding has delete
  has-delete [] k j h = refl
  has-delete ((i, w) ∷ o) k j h = ground (arith, has-delete o k j)

  pub delete-Distinct : (o : Object V) (k : Str) → Distinct o → Distinct (delete o k)
  unfolding delete
  delete-Distinct [] k h = tt
  delete-Distinct ((i, w) ∷ o) k h = ground (arith, has-delete o k i, delete-Distinct o k)
