-- ===== src/Dispatchers/Unicast/RoundRobin.antt =====
-- channels/dispatchers/unicast.js: the round robin balancer, and the naive one.
use msgs.Dispatchers.Unicast.{find_last, Last, Number, naive_round_robin, round_robin}
use native.Mathlib.Numerals.{add-one}
use native.Mathlib.Nat.{mod-lt, mod-add-mod}
use msgs.Base.{
  Eq, List, Option, [], arith, eq_iff, get_elem?, length, nat_eq, none, refl, some, suc, true, zero,
  ℕ, ◌%◌, ◌<◌, ◌∷◌, ◌≡◌, ap, get_elem?-lt, ◌∙◌,
}
use msgs.Dispatchers.Subscribable.{index_of}
use msgs.Dispatchers.Subscribable.Histories.{IsSetOf, contains}
use msgs.Js.Text.{str_eq}

suc-mod : (k n : ℕ) → suc (k % n) % n ≡ suc k % n
suc-mod k n = rw (← add-one (k % n), ← add-one k) (mod-add-mod k n 1)

module _ {ℓ} {H : Type ℓ} ⦃e : Eq H⦄ where
  get-contains : (hs : List H) (i : ℕ) (h : H) → get_elem? hs i ≡ some h → contains hs h ≡ true
  unfolding contains
  get-contains [] i h p = cc
  get-contains (x ∷ xs) zero h p = ground (arith, eq_iff x h)
  get-contains (x ∷ xs) (suc i) h p = ground (arith, get-contains xs i h p)

  index_of_get :
      (hs : List H) (i : ℕ) (h : H) → IsSetOf hs → get_elem? hs i ≡ some h → index_of hs h ≡ some i
  unfolding index_of contains
  index_of_get [] i h s p = cc
  index_of_get (x ∷ xs) zero h s p = ground (arith, eq_iff x h)
  index_of_get (x ∷ xs) (suc i) h (new, s) p =
      ground (arith, index_of_get xs i h s p, eq_iff x h, get-contains xs i h p)

  -- The balancer after `k` calls on the same list: its `last`.
  unfoldable pub last_after : List H → ℕ → Last H
  last_after hs zero = none
  last_after hs (suc k) = round_robin (last_after hs k) hs

  -- As long as the list stays the same, the choices on a list of distinct handlers that is not empty
  -- go around: choice `k`, counted from 0, is the handler at `k` modulo the length.
  pub round_robin_fair :
      (hs : List H) (k : ℕ)
      → IsSetOf hs
      → 0 < length hs
      → last_after hs (suc k) ≡ get_elem? hs (k % length hs)
  unfolding last_after round_robin
  round_robin_fair hs zero s h = refl
  round_robin_fair hs (suc k) s h =
      let (a, p) = get_elem?-lt hs (k % length hs) (mod-lt k h) in
      rw (round_robin_fair hs k s h ∙ p, find_last, index_of_get hs (k % length hs) a s p)
        (ap (get_elem? hs) (suc-mod k (length hs)))

module _ {ℓ} {H : Type ℓ} where
  unfoldable pub naive_last : List H → ℕ → Option Number
  naive_last hs zero = none
  naive_last hs (suc k) = (naive_round_robin (naive_last hs k) hs).1

  naive_last-nan : (hs : List H) (k : ℕ) → naive_last hs (suc k) ≡ some Number.nan
  unfolding naive_last naive_round_robin
  naive_last-nan hs zero = refl
  naive_last-nan hs (suc k) = rw (naive_last-nan hs k) refl

  -- On any handlers, the naive balancer returns undefined at every call: its first sum is NaN, and
  -- stays so.
  pub naive_round_robin-never :
      (hs : List H) (k : ℕ) → (naive_round_robin (naive_last hs k) hs).0 ≡ none
  naive_round_robin-never hs zero = unfold naive_last naive_round_robin in refl
  naive_round_robin-never hs (suc k) = rw (naive_last-nan hs k) (unfold naive_round_robin in refl)
