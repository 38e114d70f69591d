-- ===== src/Js/Object.antt =====
-- Objects as dictionaries, kept in the order in which their keys are enumerated: the integer
-- keys in ascending order, then the others in the order in which they were added.
pub mod Laws
use msgs.Base.{
  eqb, ℕ, ◌+◌, ◌*◌, ◌-◌, ◌^◌, Bool, true, false, ◌&&◌, ◌||◌, List, [], ◌∷◌, Option, none, some, ◌≡◌,
  refl, ltb, leb, eqb, ◌==◌, if◌then◌else◌, nat_eq,
}
use msgs.Js.Text.{Str, text, str_eq}

abbrev pub Object {ℓ} : Type ℓ → Type ℓ
Object V = List (Str × V)

unfoldable pub digits_value : ℕ → Str → Option ℕ
digits_value n [] = some n
digits_value n (c ∷ s) =
    let rest = digits_value (n * 10 + (c - b'0')) s in
    if leb b'0' c && leb c b'9' then rest else none

below_limit : Option ℕ → Option ℕ
below_limit none = none
below_limit (some n) = if ltb n (2 ^ 32 - 1) then some n else none

-- The number of an integer key: its own decimal print, below 2^32 - 1.
index_of_key : Str → Option ℕ
unfolding digits_value below_limit
index_of_key [] = none
index_of_key (c ∷ []) = digits_value 0 (c ∷ [])
index_of_key (c ∷ s) = if eqb c b'0' then none else below_limit (digits_value 0 (c ∷ s))

comes_before : Option ℕ → Option ℕ → Bool
comes_before none j = false
comes_before (some i) none = true
comes_before (some i) (some j) = ltb i j

module _ {ℓ} {V : Type ℓ} where
  -- `o[k]`, of an own property
  unfoldable pub get : Object V → Str → Option V
  get [] k = none
  get ((j, v) ∷ o) k = if j == k then some v else get o k

  -- `o.hasOwnProperty(k)`
  unfoldable pub has : Object V → Str → Bool
  has [] k = false
  has ((j, v) ∷ o) k = j == k || has o k

  replace : Object V → Str → V → Object V
  replace [] k v = []
  replace ((j, w) ∷ o) k v = if j == k then (j, v) ∷ o else (j, w) ∷ replace o k v

  place : Object V → Str → V → Object V
  place [] k v = (k, v) ∷ []
  place ((j, w) ∷ o) k v =
      if comes_before (index_of_key k) (index_of_key j)
      then (k, v) ∷ (j, w) ∷ o
      else (j, w) ∷ place o k v

  -- `o[k] = v`
  unfoldable pub put : Object V → Str → V → Object V
  unfolding replace place index_of_key comes_before has
  put o k v = if has o k then replace o k v else place o k v

  -- `delete o[k]`
  unfoldable pub delete : Object V → Str → Object V
  delete [] k = []
  delete ((j, w) ∷ o) k = if j == k then o else (j, w) ∷ delete o k

  -- `Object.keys(o)`
  abbrev pub keys : Object V → List Str
  keys [] = []
  keys ((j, v) ∷ o) = j ∷ keys o

  -- `Object.keys(from).forEach(k => o[k] = from[k])`
  unfoldable pub assign : Object V → Object V → Object V
  assign o [] = o
  assign o ((k, v) ∷ from) = assign (put o k v) from

key_order :
    keys {V = ℕ} (put (put (put (put [] (text "b") 1) (text "10") 2) (text "a") 3) (text "9") 4)
    ≡ text "9" ∷ text "10" ∷ text "b" ∷ text "a" ∷ []
unfolding put
key_order = refl
