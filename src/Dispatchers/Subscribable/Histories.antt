-- ===== src/Dispatchers/Subscribable/Histories.antt =====
-- Histories of calls on the handler list of channels/dispatchers/_subscribable.js.
use msgs.Base.{
  ℕ, ◌≡◌, refl, Bool, true, false, List, [], ◌∷◌, ◌++◌, none, some, arith, Eq, ◌==◌, eq_iff,
  if◌then◌else◌, Bool-cases, Option-cases, inl, inr, nat_eq,
}
use msgs.Dispatchers.Subscribable.{index_of, cut_out, Handlers, subscribe, unsubscribe}
use msgs.Js.Effect.{Outcome, ok, out_of_fuel, throw}
use msgs.Js.Text.{str_eq}

module _ {ℓ} {H : Type ℓ} ⦃e : Eq H⦄ where
  unfoldable pub contains : List H → H → Bool
  contains [] h = false
  contains (x ∷ xs) h = if x == h then true else contains xs h

  -- No handler stands twice.
  abbrev pub IsSetOf : List H → Type 0
  IsSetOf [] = Unit
  IsSetOf (x ∷ xs) = (contains xs x ≡ false) × IsSetOf xs

  -- The list without one handler, the others in their order.
  unfoldable pub without : List H → H → List H
  without [] h = []
  without (x ∷ xs) h = if x == h then without xs h else x ∷ without xs h

  contains-index_of : (hs : List H) (h : H) → (index_of hs h ≡ none) → contains hs h ≡ false
  unfolding contains index_of
  contains-index_of [] h p = refl
  contains-index_of (x ∷ xs) h p = ground (arith, contains-index_of xs h)

  index_of-contains : (hs : List H) (h : H) {i : ℕ} → index_of hs h ≡ some i → contains hs h ≡ true
  unfolding contains index_of
  index_of-contains [] h p = cc
  index_of-contains (x ∷ xs) h p = elim (Bool-cases (x == h)) [
    | inl t ↦ rw t refl
    | inr f ↦ elim (Option-cases (index_of xs h)) [
      | inl q ↦ ground arith
      | inr (j, q) ↦ rw f (index_of-contains xs h q)
    ]
  ]

  without_absent : (hs : List H) (h : H) → contains hs h ≡ false → without hs h ≡ hs
  unfolding contains without
  without_absent [] h p = refl
  without_absent (x ∷ xs) h p = ground (arith, without_absent xs h)

  cut_out-eq-without :
      (hs : List H) (h : H) → IsSetOf hs → cut_out hs (index_of hs h) ≡ without hs h
  unfolding contains without cut_out index_of
  cut_out-eq-without [] h s = refl
  cut_out-eq-without (x ∷ xs) h (new, s) =
      ground (arith, cut_out-eq-without xs h s, without_absent xs h, eq_iff x h)

  contains-without :
      (hs : List H) (h k : H)
      → contains (without hs h) k ≡ (if h == k then false else contains hs k)
  unfolding contains without
  contains-without [] h k = ground arith
  contains-without (x ∷ xs) h k =
      ground (arith, contains-without xs h k, eq_iff x h, eq_iff x k, eq_iff h k)

  pub without-IsSetOf : (hs : List H) (h : H) → IsSetOf hs → IsSetOf (without hs h)
  unfolding without
  without-IsSetOf [] h s = tt
  without-IsSetOf (x ∷ xs) h s = ground (arith, without-IsSetOf xs h, contains-without xs h x)

  contains-concat :
      (hs : List H) (h k : H) → contains (hs ++ h ∷ []) k ≡ (if h == k then true else contains hs k)
  unfolding contains
  contains-concat [] h k = refl
  contains-concat (x ∷ xs) h k = ground (arith, contains-concat xs h k)

  pub concat-IsSetOf :
      (hs : List H) (h : H) → contains hs h ≡ false → IsSetOf hs → IsSetOf (hs ++ h ∷ [])
  unfolding contains
  concat-IsSetOf [] h new s = (refl, tt)
  concat-IsSetOf (x ∷ xs) h new s =
      ground (arith, concat-IsSetOf xs h, contains-concat xs h x, eq_iff x h, eq_iff h x)

  -- What `subscribe` and `unsubscribe` do to a list with no handler twice.
  pub subscribe_lem :
      (hs : List H) (h : H)
      → subscribe (some hs) h ≡ ok (some (if contains hs h then hs else hs ++ h ∷ []))
  unfolding subscribe
  subscribe_lem hs h = elim (Option-cases (index_of hs h)) [
    | inl p ↦ rw (p, subscribe, contains-index_of hs h p) refl
    | inr (i, p) ↦ rw (p, subscribe, index_of-contains hs h p) refl
  ]

  pub unsubscribe_lem :
      (hs : List H) (h : H) → IsSetOf hs → unsubscribe (some hs) h ≡ ok (some (without hs h))
  unfolding unsubscribe
  unsubscribe_lem hs h s = rw (cut_out-eq-without hs h s) refl

-- A history of calls, oldest first.
pub data Call {ℓ} (H : Type ℓ) : Type ℓ where
  subscribes unsubscribes : H → Call H

module _ {ℓ} {H : Type ℓ} ⦃e : Eq H⦄ where
  abbrev pub then_run :
      Outcome (Handlers H) → (Handlers H → Outcome (Handlers H)) → Outcome (Handlers H)
  then_run (ok s) f = f s
  then_run (throw v) f = throw v
  then_run out_of_fuel f = out_of_fuel

  unfoldable pub run_calls : Handlers H → List (Call H) → Outcome (Handlers H)
  run_calls s [] = ok s
  run_calls s (subscribes h ∷ cs) = then_run (subscribe s h) (λ s'. run_calls s' cs)
  run_calls s (unsubscribes h ∷ cs) = then_run (unsubscribe s h) (λ s'. run_calls s' cs)

  -- Whether the last call that names `k` is a subscription; `b` if none does.
  unfoldable pub last_call : H → Bool → List (Call H) → Bool
  last_call k b [] = b
  last_call k b (subscribes h ∷ cs) = last_call k (if h == k then true else b) cs
  last_call k b (unsubscribes h ∷ cs) = last_call k (if h == k then false else b) cs

  abbrev pub EndsAs : (H → Bool) → Outcome (Handlers H) → Type ℓ
  EndsAs member r =
      (hs : List H) × (r ≡ ok (some hs)) × IsSetOf hs × ((k : H) → contains hs k ≡ member k)

  contains-subscribed :
      (hs : List H) (h k : H)
      → contains (if contains hs h then hs else hs ++ h ∷ []) k
        ≡ (if h == k then true else contains hs k)
  contains-subscribed hs h k = ground (arith, contains-concat hs h k, eq_iff h k)

  pub subscribed-IsSetOf :
      (hs : List H) (h : H) → IsSetOf hs → IsSetOf (if contains hs h then hs else hs ++ h ∷ [])
  subscribed-IsSetOf hs h s = elim (Bool-cases (contains hs h)) [
    | inl p ↦ rw p s
    | inr p ↦ rw p (concat-IsSetOf hs h p s)
  ]

  run_calls-EndsAs :
      (hs : List H) (cs : List (Call H)) (member : H → Bool)
      → IsSetOf hs
      → ((k : H) → contains hs k ≡ member k)
      → EndsAs (λ k. last_call k (member k) cs) (run_calls (some hs) cs)
  unfolding run_calls last_call
  run_calls-EndsAs hs [] member s m = (hs, refl, s, m)
  run_calls-EndsAs hs (subscribes h ∷ cs) member s m = rw (subscribe_lem hs h) (
      run_calls-EndsAs (if contains hs h then hs else hs ++ h ∷ []) cs
        (λ k. if h == k then true else member k) (subscribed-IsSetOf hs h s)
        (λ k. rw (contains-subscribed hs h k, m k) refl))
  run_calls-EndsAs hs (unsubscribes h ∷ cs) member s m = rw (unsubscribe_lem hs h s) (
      run_calls-EndsAs (without hs h) cs (λ k. if h == k then false else member k)
        (without-IsSetOf hs h s) (λ k. rw (contains-without hs h k, m k) refl))

  -- After any calls of `subscribe` and `unsubscribe` on a new dispatcher none has thrown, no handler
  -- is listed twice, and a handler is listed exactly if the last call that names it is a
  -- subscription.
  pub run_calls_history :
      (cs : List (Call H)) → EndsAs (λ k. last_call k false cs) (run_calls (some []) cs)
  run_calls_history cs = run_calls-EndsAs [] cs (λ k. false) tt (λ k. unfold contains in refl)
