-- ===== src/Aggregators/Correlating/Sort.antt =====
-- aggregators/correlating.js: sorting a bucket, and the order in which its messages came.
use mathlib.Core.Path.{subst₂}
use mathlib.Core.List.{Permᴰ}
use msgs.Aggregators.Correlating.{insert_sorted, sequence_number, sort}
use msgs.Base.{All, List, [], ap₂, arith, refl, subst, ◌<◌, ◌∙◌, ◌∷◌, ◌≡◌, ◌≢◌, sym, ℕ}
use msgs.Message.{Message}

-- Every sequence number stands once.
abbrev pub Numbered : List Message → Type 0
Numbered [] = Unit
Numbered (m ∷ ms) = All (λ x. sequence_number m ≢ sequence_number x) ms × Numbered ms

-- The sequence numbers ascend.
abbrev pub Ascending : List Message → Type 0
Ascending [] = Unit
Ascending (m ∷ ms) = All (λ x. sequence_number m < sequence_number x) ms × Ascending ms

above→ne :
    (n : ℕ) (ms : List Message)
    → All (λ x. n < sequence_number x) ms
    → All (λ x. n ≢ sequence_number x) ms
above→ne n [] h = tt
above→ne n (m ∷ ms) (lt, h) = (omega arith, above→ne n ms h)

pub Ascending-Numbered : (ms : List Message) → Ascending ms → Numbered ms
Ascending-Numbered [] h = tt
Ascending-Numbered (m ∷ ms) (lt, h) = (above→ne (sequence_number m) ms lt, Ascending-Numbered ms h)

insert-swap :
    (a b : Message) (ms : List Message)
    → sequence_number a ≢ sequence_number b
    → insert_sorted a (insert_sorted b ms) ≡ insert_sorted b (insert_sorted a ms)
unfolding insert_sorted
insert-swap a b [] h = ground arith
insert-swap a b (x ∷ xs) h = ground (arith, insert-swap a b xs h)

module _ (P : Message → Type 0) where
  All-permᴰ : {xs ys : List Message} → Permᴰ xs ys → All P xs → All P ys
  All-permᴰ Permᴰ.nil h = h
  All-permᴰ (Permᴰ.cons p q) (x, h) = (subst P p x, All-permᴰ q h)
  All-permᴰ (Permᴰ.swap p q) (x, (y, h)) = (subst P q y, (subst P p x, h))
  All-permᴰ (Permᴰ.trans q r) h = All-permᴰ r (All-permᴰ q h)

Numbered-permᴰ : {xs ys : List Message} → Permᴰ xs ys → Numbered xs → Numbered ys
Numbered-permᴰ Permᴰ.nil h = h
Numbered-permᴰ (Permᴰ.cons {l₂ = ys} p q) (x, h) = (
  subst (λ m. All (λ y. sequence_number m ≢ sequence_number y) ys) p (All-permᴰ _ q x),
  Numbered-permᴰ q h,
)
Numbered-permᴰ (Permᴰ.swap {l} p q) ((d, x), (y, h)) =
    subst₂ (λ m n. Numbered (m ∷ n ∷ l)) q p (((λ e. d (sym e)), y), (x, h))
Numbered-permᴰ (Permᴰ.trans q r) h = Numbered-permᴰ r (Numbered-permᴰ q h)

-- The order of arrival does not matter where every sequence number stands once.
pub sort-permᴰ : {xs ys : List Message} → Permᴰ xs ys → Numbered xs → sort xs ≡ sort ys
unfolding sort
sort-permᴰ Permᴰ.nil h = refl
sort-permᴰ (Permᴰ.cons p q) (x, h) = ap₂ insert_sorted p (sort-permᴰ q h)
sort-permᴰ (Permᴰ.swap {a} {b} {l} p q) ((d, x), h) = rw (← q, ← p) (insert-swap a b (sort l) d)
sort-permᴰ (Permᴰ.trans q r) h = sort-permᴰ q h ∙ sort-permᴰ r (Numbered-permᴰ q h)

-- An ascending list is sorted already.
pub sort_of_Ascending : (ms : List Message) → Ascending ms → sort ms ≡ ms
unfolding sort
sort_of_Ascending [] h = refl
sort_of_Ascending (m ∷ []) h = refl
sort_of_Ascending (m ∷ x ∷ xs) ((lt, rest), h) =
    rw (sort_of_Ascending (x ∷ xs) h) (ground (arith, lt))
