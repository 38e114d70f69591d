-- ===== src/Dispatchers/Exchange/Topics.antt =====
-- `subscribe` and `unsubscribe` of channels/dispatchers/exchange.js, with subscribable dispatchers for
-- the topics.

use msgs.Dispatchers.Exchange.{subscribe, unsubscribe, on_topic, subscribable_topics, Topics}
use msgs.Base.{
  Eq, List, Option, [], eq_refl, false, if◌then◌else◌, nat_eq, none, some, ◌++◌, ◌∷◌, ◌≡◌, arith,
  refl, Bool-cases, inl, inr, true, ◌==◌, eq_iff,
}
use msgs.Js.Object.{Object, get, has, put, delete}
use msgs.Js.Object.Laws.{
  Distinct, get-put, has_of_get, delete-Distinct, get-delete, put-Distinct, get_of_has,
  get_of_not_has,
}
use msgs.Js.Text.{Str, str_eq}
use msgs.Dispatchers.Subscribable.Histories.{
  IsSetOf, contains, subscribe_lem, unsubscribe_lem, without, subscribed-IsSetOf, without-IsSetOf,
}
use msgs.Js.Effect.{ok, Js, Outcome}
use msgs.Dispatchers.Subscribable.{Handlers}

module _ {H : Type 0} ⦃e : Eq H⦄ where
  abbrev pub handlers_in : Option (Handlers H) → List H
  handlers_in (some (some hs)) = hs
  handlers_in _ = []

  -- The handlers that are subscribed to a topic; none, if it has no dispatcher.
  unfoldable pub members : Object (Handlers H) → Str → List H
  members ts t = handlers_in (get ts t)

  -- A topic's dispatcher is not destroyed, has a handler, and has none twice.
  abbrev pub IsLive : Handlers H → Type 0
  IsLive none = ⊥
  IsLive (some []) = ⊥
  IsLive (some (h ∷ hs)) = IsSetOf (h ∷ hs)

  -- A topic has a dispatcher only while a handler is subscribed to it.
  pub record IsTidy (ts : Object (Handlers H)) : Type 0 where
    pub distinct : Distinct ts
    pub live : (t : Str) (d : Handlers H) → get ts t ≡ some d → IsLive d

  abbrev pub added : List H → H → List H
  added hs h = if contains hs h then hs else hs ++ h ∷ []

  on_topic_lem {κ} :
      {A : Type κ} (ts : Object (Handlers H)) (t : Str) (d : Handlers H) (m : Js (Handlers H) A)
      → get ts t ≡ some d
      → on_topic t m (some ts) ≡ ((m d).0, some (put ts t (m d).1))
  unfolding on_topic
  on_topic_lem ts t d m p = rw (p, on_topic) refl

  subscribe_new :
      (ts : Object (Handlers H)) (t : Str) (h : H)
      → has ts t ≡ false
      → subscribe subscribable_topics t h (some ts)
        ≡ (ok tt, some (put (put ts t (some [])) t (some (h ∷ []))))
  unfolding subscribe subscribable_topics
  subscribe_new ts t h new = ground (arith, new, get-put ts t t (some []), eq_refl t)

  subscribe_old :
      (ts : Object (Handlers H)) (t : Str) (h : H) (hs : List H)
      → get ts t ≡ some (some hs)
      → subscribe subscribable_topics t h (some ts) ≡ (ok tt, some (put ts t (some (added hs h))))
  unfolding subscribe subscribable_topics
  subscribe_old ts t h hs p = ground (arith, has_of_get ts t (some hs) p, subscribe_lem hs h)

  unsubscribe_kept :
      (ts : Object (Handlers H)) (t : Str) (h k : H) (hs ks : List H)
      → get ts t ≡ some (some hs)
      → IsSetOf hs
      → without hs h ≡ k ∷ ks
      → unsubscribe subscribable_topics t h (some ts)
        ≡ (ok tt, some (put (put ts t (some (k ∷ ks))) t (some (k ∷ ks))))
  unfolding unsubscribe subscribable_topics
  unsubscribe_kept ts t h k hs ks p s q = ground (
    arith,
    has_of_get ts t (some hs) p,
    unsubscribe_lem hs h s,
    get-put ts t t (some (k ∷ ks)),
    eq_refl t,
  )

  unsubscribe_last :
      (ts : Object (Handlers H)) (t : Str) (h : H) (hs : List H)
      → get ts t ≡ some (some hs)
      → IsSetOf hs
      → without hs h ≡ []
      → unsubscribe subscribable_topics t h (some ts)
        ≡ (ok tt, some (delete (put (put (put ts t (some [])) t (some [])) t none) t))
  unfolding unsubscribe subscribable_topics
  unsubscribe_last ts t h hs p s q = ground (
    arith,
    has_of_get ts t (some hs) p,
    unsubscribe_lem hs h s,
    get-put ts t t (some []),
    get-put (put ts t (some [])) t t (some []),
    eq_refl t,
  )

  -- What becomes of the members of every topic.
  abbrev pub Becomes :
      Object (Handlers H) → (Str → List H) → Outcome (Unit {0}) × Topics (Handlers H) → Type 0
  Becomes ts after r =
      (ts' : Object (Handlers H)) × (r ≡ (ok tt, some ts'))
      × IsTidy ts'
      × ((j : Str) → members ts' j ≡ after j)

  -- From what a lookup gives after the call.
  Becomes-written :
      (ts ts' : Object (Handlers H)) (t : Str) (h : H) (hs : List H)
      → IsTidy ts
      → IsSetOf (h ∷ hs)
      → Distinct ts'
      → ((j : Str) → get ts' j ≡ (if t == j then some (some (h ∷ hs)) else get ts j))
      → Becomes ts (λ j. if t == j then h ∷ hs else members ts j) (ok tt, some ts')
  unfolding members
  Becomes-written ts ts' t h hs v s dist look = (
    ts',
    refl,
    record { distinct = dist; live = λ j d p. ground (arith, look j, v.live j d) },
    λ j. ground (arith, look j),
  )

  Becomes-deleted :
      (ts ts' : Object (Handlers H)) (t : Str)
      → IsTidy ts
      → Distinct ts'
      → ((j : Str) → get ts' j ≡ (if t == j then none else get ts j))
      → Becomes ts (λ j. if t == j then [] else members ts j) (ok tt, some ts')
  unfolding members
  Becomes-deleted ts ts' t v dist look = (
    ts',
    refl,
    record { distinct = dist; live = λ j d p. ground (arith, look j, v.live j d) },
    λ j. ground (arith, look j),
  )

  get-put-put :
      (ts : Object (Handlers H)) (t j : Str) (d d' : Handlers H)
      → get (put (put ts t d) t d') j ≡ (if t == j then some d' else get ts j)
  get-put-put ts t j d d' = ground (arith, get-put (put ts t d) t j d', get-put ts t j d)

  added-cons : (hs : List H) (h : H) → (k : H) × (ks : List H) × (added hs h ≡ k ∷ ks)
  unfolding contains
  added-cons [] h = (h, [], refl)
  added-cons (x ∷ xs) h = elim (Bool-cases (contains (x ∷ xs) h)) [
    | inl p ↦ (x, xs, rw p refl)
    | inr p ↦ (x, xs ++ h ∷ [], rw p refl)
  ]

  live-members :
      (ts : Object (Handlers H)) (t : Str)
      → IsTidy ts
      → has ts t ≡ true
      → (h : H) × (hs : List H) × (get ts t ≡ some (some (h ∷ hs))) × IsSetOf (h ∷ hs)
  live-members ts t v p = let (d, q) = get_of_has ts t p in go d q (v.live t d q)
    where
      go :
          (d : Handlers H)
          → get ts t ≡ some d
          → IsLive d
          → (h : H) × (hs : List H) × (get ts t ≡ some (some (h ∷ hs))) × IsSetOf (h ∷ hs)
      go none q l = absurd l
      go (some []) q l = absurd l
      go (some (h ∷ hs)) q l = (h, hs, q, l)

  members_absent : (ts : Object (Handlers H)) (t : Str) → has ts t ≡ false → members ts t ≡ []
  unfolding members
  members_absent ts t p = rw (get_of_not_has ts t p) refl

  members_present :
      (ts : Object (Handlers H)) (t : Str) (hs : List H)
      → get ts t ≡ some (some hs)
      → members ts t ≡ hs
  unfolding members
  members_present ts t hs p = rw p refl

  -- On tidy topics with subscribable dispatchers `subscribe` does not throw, leaves the topics tidy,
  -- adds the handler to the members of its topic, behind the others and unless it is one, and leaves
  -- the members of every other topic as they are.
  pub subscribe-members :
      (ts : Object (Handlers H)) (t : Str) (h : H)
      → IsTidy ts
      → Becomes ts
          (λ j. if t == j then added (members ts t) h else members ts j)
          (subscribe subscribable_topics t h (some ts))
  subscribe-members ts t h v = elim (Bool-cases (has ts t)) [
    | inr new ↦
        rw (subscribe_new ts t h new, members_absent ts t new)
          (unfold contains in
            Becomes-written ts _ t h [] v (refl, tt)
              (put-Distinct _ t _ (put-Distinct ts t _ v.distinct)) (λ j. get-put-put ts t j _ _))
    | inl old ↦
        let (x, xs, p, s) = live-members ts t v old in
        let (k, ks, q) = added-cons (x ∷ xs) h in
        rw (subscribe_old ts t h (x ∷ xs) p, members_present ts t (x ∷ xs) p, q)
          (Becomes-written ts _ t k ks v (rw q at (subscribed-IsSetOf (x ∷ xs) h s))
            (put-Distinct ts t _ v.distinct) (λ j. get-put ts t j _))
  ]

  unsubscribe_absent :
      (ts : Object (Handlers H)) (t : Str) (h : H)
      → has ts t ≡ false
      → unsubscribe subscribable_topics t h (some ts) ≡ (ok tt, some ts)
  unfolding unsubscribe
  unsubscribe_absent ts t h p = ground (arith, p)

  emptied-Distinct :
      (ts : Object (Handlers H)) (t : Str) (a b c : Handlers H)
      → Distinct ts
      → Distinct (put (put (put ts t a) t b) t c)
  emptied-Distinct ts t a b c d = put-Distinct _ t c (put-Distinct _ t b (put-Distinct ts t a d))

  get-emptied :
      (ts : Object (Handlers H)) (t j : Str) (a b c : Handlers H)
      → Distinct ts
      → get (delete (put (put (put ts t a) t b) t c) t) j ≡ (if t == j then none else get ts j)
  get-emptied ts t j a b c d =
      rw (get-delete (put (put (put ts t a) t b) t c) t j (emptied-Distinct ts t a b c d))
        (ground (arith, get-put (put (put ts t a) t b) t j c, get-put-put ts t j a b))

  -- On tidy topics with subscribable dispatchers `unsubscribe` does not throw, leaves the topics tidy,
  -- so that a topic goes with its last handler, takes the handler out of the members of its topic,
  -- and leaves the order of the others and the members of every other topic as they are.
  pub unsubscribe-members :
      (ts : Object (Handlers H)) (t : Str) (h : H)
      → IsTidy ts
      → Becomes ts
          (λ j. if t == j then without (members ts t) h else members ts j)
          (unsubscribe subscribable_topics t h (some ts))
  unsubscribe-members ts t h v = elim (Bool-cases (has ts t)) [
    | inr new ↦
        rw (unsubscribe_absent ts t h new)
          (ts, refl, v, λ j. unfold without in ground (arith, eq_iff t j, members_absent ts t new))
    | inl old ↦ let (x, xs, p, s) = live-members ts t v old in go x xs p s (without (x ∷ xs) h) refl
  ]
    where
      go :
          (x : H) (xs : List H)
          → get ts t ≡ some (some (x ∷ xs))
          → IsSetOf (x ∷ xs)
          → (rest : List H) → without (x ∷ xs) h ≡ rest
          → Becomes ts
              (λ j. if t == j then without (members ts t) h else members ts j)
              (unsubscribe subscribable_topics t h (some ts))
      go x xs p s [] q =
          rw (unsubscribe_last ts t h (x ∷ xs) p s q, members_present ts t (x ∷ xs) p, q)
            (Becomes-deleted ts _ t v (delete-Distinct _ t (emptied-Distinct ts t _ _ _ v.distinct))
              (λ j. get-emptied ts t j _ _ _ v.distinct))
      go x xs p s (k ∷ ks) q =
          rw (unsubscribe_kept ts t h k (x ∷ xs) ks p s q, members_present ts t (x ∷ xs) p, q)
            (Becomes-written ts _ t k ks v (rw q at (without-IsSetOf (x ∷ xs) h s))
              (put-Distinct _ t _ (put-Distinct ts t _ v.distinct)) (λ j. get-put-put ts t j _ _))
