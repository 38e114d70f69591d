-- ===== src/Stomp/Dispatcher/Consistency.antt =====
-- channels/dispatchers/stomp.js: how the tables of subscriptions and destinations fit together.
use msgs.Js.Decimal.{decimal, decimal_injective}
use msgs.Js.Object.{Object, get, put, delete}
use msgs.Js.Object.Laws.{Distinct, get-put, put-Distinct, delete-Distinct, get-delete}
use msgs.Js.Text.{Str, str_eq}
use msgs.Dispatchers.Exchange.Topics.{IsLive}
use msgs.Stomp.Client.{Subscription}
use msgs.Base.{
  Eq, Bool-cases, inl, inr, some, ℕ, ◌<◌, ◌≡◌, ◌==◌, eq_iff, nat_eq, sym, refl, ap, arith, eq_refl,
  false, ne→eq-false, none, subst, suc, ◌≢◌,
}

pub decimal-ne : (m n : ℕ) → m ≢ n → (decimal m == decimal n) ≡ false
decimal-ne m n h = ne→eq-false (decimal m) (decimal n) (λ p. h (decimal_injective m n p))

-- Deleting a destination leaves those whose id is another one.
pub get_kept :
    (destinations : Object ℕ)
    → Distinct destinations
    → (d d' k : Str) (id id' : ℕ) → get destinations d ≡ some id
    → get destinations d' ≡ some id'
    → k ≡ decimal id'
    → (decimal id == k) ≡ false
    → get (delete destinations d) d' ≡ some id'
get_kept destinations h d d' k id id' p o r apart = elim (Bool-cases (d == d')) [
  | inl same ↦
      let i : id ≡ id' = ground (arith, eq_iff d d', same, p, o) in
      absurd (ground (arith, eq_iff (decimal id) k, ap decimal i, r, apart))
  | inr differs ↦ rw (get-delete destinations d d' h, differs) o
]

-- What is found after a delete is another name's, and was there.
pub get_left :
    {V : Type 0} (o : Object V)
    → Distinct o
    → (d d' : Str) (v : V) → get (delete o d) d' ≡ some v
    → (d ≢ d') × (get o d' ≡ some v)
get_left o h d d' v q = ground (arith, get-delete o d d' h, eq_iff d d', q)

module _ {H : Type 0} ⦃e : Eq H⦄ where
  -- A destination has a subscription of its own, of which a handler is left.
  pub record IsConsistent (subscriptions : Object (Subscription H)) (destinations : Object ℕ)
      (counter : ℕ) : Type 0 where
    pub subscriptions_distinct : Distinct subscriptions
    pub destinations_distinct : Distinct destinations
    pub below : (d : Str) (id : ℕ) → get destinations d ≡ some id → id < counter
    pub served :
        (d : Str) (id : ℕ)
        → get destinations d ≡ some id
        → (s : Subscription H) × (get subscriptions (decimal id) ≡ some s) × IsLive s.handlers
    pub alone :
        (d d' : Str) (id : ℕ)
        → get destinations d ≡ some id
        → get destinations d' ≡ some id
        → d ≡ d'
    pub known :
        (k : Str) (s : Subscription H)
        → get subscriptions k ≡ some s
        → (d : Str) × (id : ℕ) × (k ≡ decimal id) × (get destinations d ≡ some id)

  module _ {subscriptions : Object (Subscription H)} {destinations : Object ℕ} {n : ℕ} where
    -- One more handler, or one less, in a subscription that stays.
    pub updated-IsConsistent :
        (d : Str) (id : ℕ) (s : Subscription H)
        → IsConsistent subscriptions destinations n
        → get destinations d ≡ some id
        → IsLive s.handlers
        → IsConsistent (put subscriptions (decimal id) s) destinations n
    updated-IsConsistent d id s v p live = record {
      subscriptions_distinct = put-Distinct subscriptions (decimal id) s v.subscriptions_distinct;
      destinations_distinct = v.destinations_distinct;
      below = v.below;
      served = λ d' id' q. elim (Bool-cases (decimal id == decimal id')) [
        | inl same ↦ (s, rw (get-put subscriptions (decimal id) (decimal id') s, same) refl, live)
        | inr apart ↦
            let (s', r, l) = v.served d' id' q in
            (s', rw (get-put subscriptions (decimal id) (decimal id') s, apart) r, l)
      ];
      alone = v.alone;
      known = λ k s' q. elim (Bool-cases (decimal id == k)) [
        | inl same ↦ (d, id, sym ((eq_iff (decimal id) k).0 same), p)
        | inr apart ↦ v.known k s' (rw (get-put subscriptions (decimal id) k s, apart) at q)
      ];
    }

    -- The first handler of a destination, under a new id.
    pub opened-IsConsistent :
        (d : Str) (s : Subscription H)
        → IsConsistent subscriptions destinations n
        → get destinations d ≡ none
        → IsLive s.handlers
        → IsConsistent (put subscriptions (decimal n) s) (put destinations d n) (suc n)
    opened-IsConsistent d s v new live = record {
      subscriptions_distinct = put-Distinct subscriptions (decimal n) s v.subscriptions_distinct;
      destinations_distinct = put-Distinct destinations d n v.destinations_distinct;
      below = λ d' id q. elim (Bool-cases (d == d')) [
        | inl same ↦ ground (arith, get-put destinations d d' n, same, q)
        | inr apart ↦ omega (arith, v.below d' id (rw (get-put destinations d d' n, apart) at q))
      ];
      served = λ d' id q. elim (Bool-cases (d == d')) [
        | inl same ↦
            let e : n ≡ id = ground (arith, get-put destinations d d' n, same, q) in
            (
              s,
              rw (← e, get-put subscriptions (decimal n) (decimal n) s, eq_refl (decimal n)) refl,
              live,
            )
        | inr apart ↦
            let old = rw (get-put destinations d d' n, apart) at q in
            let (s', r, l) = v.served d' id old in
            let differs : n ≢ id = λ p. omega (arith, v.below d' id old, p) in
            (
              s',
              rw (get-put subscriptions (decimal n) (decimal id) s, decimal-ne n id differs) r,
              l,
            )
      ];
      alone = λ a b id p q. ground (
        arith,
        get-put destinations d a n,
        get-put destinations d b n,
        eq_iff d a,
        eq_iff d b,
        v.below a id,
        v.below b id,
        v.alone a b id,
      );
      known = λ k s' q. elim (Bool-cases (decimal n == k)) [
        | inl same ↦ (
          d,
          n,
          sym ((eq_iff (decimal n) k).0 same),
          rw (get-put destinations d d n, eq_refl d) refl,
        )
        | inr apart ↦
            let (d', id, r, p) =
              v.known k s' (rw (get-put subscriptions (decimal n) k s, apart) at q) in
            (d', id, r, ground (arith, get-put destinations d d' n, eq_iff d d', p, new))
      ];
    }

    -- The last handler of a destination leaves.
    pub closed-IsConsistent :
        (d : Str) (id : ℕ)
        → IsConsistent subscriptions destinations n
        → get destinations d ≡ some id
        → IsConsistent (delete subscriptions (decimal id)) (delete destinations d) n
    closed-IsConsistent d id v p = record {
      subscriptions_distinct = delete-Distinct subscriptions (decimal id) v.subscriptions_distinct;
      destinations_distinct = delete-Distinct destinations d v.destinations_distinct;
      below =
          λ d' id' q. v.below d' id' (get_left destinations v.destinations_distinct d d' id' q).1;
      served = λ d' id' q.
          let (apart, old) = get_left destinations v.destinations_distinct d d' id' q in
          let (s, r, l) = v.served d' id' old in
          let differs : id ≢ id' = λ i.
            apart (v.alone d d' id p (subst (λ j. get destinations d' ≡ some j) (sym i) old)) in
          (
            s,
            rw
                (
                  get-delete subscriptions (decimal id) (decimal id') v.subscriptions_distinct,
                  decimal-ne id id' differs,
                )
                r,
            l,
          );
      alone = λ a b id' q r.
          v.alone a b id' (get_left destinations v.destinations_distinct d a id' q).1
            (get_left destinations v.destinations_distinct d b id' r).1;
      known = λ k s q. elim (Bool-cases (decimal id == k)) [
        | inl same ↦ absurd (
            ground
              (arith, get-delete subscriptions (decimal id) k v.subscriptions_distinct, same, q))
        | inr apart ↦
            let (d', id', r, o) =
              v.known k s (
                rw (get-delete subscriptions (decimal id) k v.subscriptions_distinct, apart) at
                  q) in
            (d', id', r, get_kept destinations v.destinations_distinct d d' k id id' p o r apart)
      ];
    }

  pub grown-IsConsistent :
      {subscriptions : Object (Subscription H)} {destinations : Object ℕ} {n : ℕ}
      → IsConsistent subscriptions destinations n
      → IsConsistent subscriptions destinations (suc n)
  grown-IsConsistent {n} v = record {
    subscriptions_distinct = v.subscriptions_distinct;
    destinations_distinct = v.destinations_distinct;
    below = λ d id p. omega (arith, v.below d id p);
    served = v.served;
    alone = v.alone;
    known = v.known;
  }
