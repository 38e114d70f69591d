-- ===== src/Aggregators/Correlating/Arrivals.antt =====
-- Histories of a correlating aggregator whose output channel resolves: the release of a bucket then
-- returns, and the buckets that the channel has been sent stand in a list.
use mathlib.Core.List.{Permᴰ}
use msgs.Base.{
  List, [], arith, length, length-append, suc, true, ℕ, ◌++◌, ◌<◌, ◌∷◌, ◌≡◌, ◌≢◌, ◌≤◌, Bool-cases,
  append-nil, append_assoc, eq_iff, inl, inr, nat_eq, refl, sym, ◌∙◌, eq_refl, none, ◌+◌, ◌⊎◌, ap,
  subst,
}
use msgs.Aggregators.Correlating.{Buckets, at_least, bucket_of, sort, on_message}
use msgs.Js.Value.{Value, to_string, truthy}
use msgs.Js.Effect.{Js, ok}
use msgs.Js.Object.{delete, put, get}
use msgs.Message.{Message, header}
use msgs.Js.Text.{Str, text, str_eq}
use msgs.Js.Object.Laws.{
  Distinct, delete-Distinct, get-delete, get-put, put-Distinct, get_of_delete,
}
use msgs.Aggregators.Correlating.Sort.{Ascending, Ascending-Numbered, sort-permᴰ, sort_of_Ascending}

abbrev pub Run : Type 0
Run = Buckets × List (List Message)

unfoldable pub collect : List Message → Js Run (Unit {0})
collect bucket (buckets, out) = (ok tt, (buckets, out ++ bucket ∷ []))

unfoldable pub run : List Message → Run → Run
unfolding on_message collect
run [] r = r
run (m ∷ ms) r = run ms (on_message collect m r).1

-- A part of a split message, as `splitter` numbers it: one of `size` parts of the message `id`.
pub record IsPart (id : Str) (size : ℕ) (m : Message) : Type 0 where
  pub correlation : header m (text "correlationId") ≡ Value.str id
  pub named : truthy (Value.str id) ≡ true
  pub sequence_size : header m (text "sequenceSize") ≡ Value.num size

-- A part of another message.
abbrev pub IsOther : Str → Message → Type 0
IsOther id m = to_string (header m (text "correlationId")) ≢ id

module _ (id : Str) (size : ℕ) where
  waits :
      (m : Message) (buckets : Buckets) (out : List (List Message))
      → IsPart id size m
      → suc (length (bucket_of buckets id)) < size
      → (on_message collect m (buckets, out)).1
        ≡ (put buckets id (bucket_of buckets id ++ m ∷ []), out)
  unfolding on_message at_least to_string
  waits m buckets out p h = ground (
    arith,
    p.correlation,
    p.named,
    p.sequence_size,
    length-append (bucket_of buckets id) (m ∷ []),
  )

  completes :
      (m : Message) (buckets : Buckets) (out : List (List Message))
      → IsPart id size m
      → size ≤ suc (length (bucket_of buckets id))
      → (on_message collect m (buckets, out)).1 ≡ (
        delete (put buckets id (sort (bucket_of buckets id ++ m ∷ []))) id,
        out ++ sort (bucket_of buckets id ++ m ∷ []) ∷ [],
      )
  unfolding on_message at_least to_string collect
  completes m buckets out p h = ground (
    arith,
    p.correlation,
    p.named,
    p.sequence_size,
    length-append (bucket_of buckets id) (m ∷ []),
  )

  -- What a message of another id does to the state.
  abbrev Passes : Run → Run → Type 0
  Passes (buckets, out) (buckets', out') =
      (get buckets' id ≡ get buckets id)
      × Distinct buckets'
      × ((zs : List (List Message)) × (out' ≡ out ++ zs))

  Passes-put :
      (key : Str) (b : List Message) (buckets : Buckets) (out : List (List Message))
      → key ≢ id
      → Distinct buckets
      → Passes (buckets, out) (put buckets key b, out)
  Passes-put key b buckets out other d = (
    ground (arith, get-put buckets key id b, eq_iff key id),
    put-Distinct buckets key b d,
    ([], sym (append-nil out)),
  )

  Passes-delete :
      (key : Str) (b : List Message) (buckets : Buckets) (out zs : List (List Message))
      → key ≢ id
      → Distinct buckets
      → Passes (buckets, out) (delete (put buckets key b) key, out ++ zs)
  Passes-delete key b buckets out zs other d = (
    ground (
      arith,
      get-delete (put buckets key b) key id (put-Distinct buckets key b d),
      get-put buckets key id b,
      eq_iff key id,
    ),
    delete-Distinct (put buckets key b) key (put-Distinct buckets key b d),
    (zs, refl),
  )

  other-Passes :
      (m : Message) (buckets : Buckets) (out : List (List Message))
      → IsOther id m
      → Distinct buckets
      → Passes (buckets, out) (on_message collect m (buckets, out)).1
  unfolding on_message collect
  other-Passes m buckets out other d =
      let v = header m (text "correlationId") in
      let key = to_string v in
      let b = bucket_of buckets key ++ m ∷ [] in
      elim (Bool-cases (truthy v)) [
        | inr empty ↦ rw empty (refl, d, ([], sym (append-nil out)))
        | inl given ↦ elim (Bool-cases (at_least (length b) (header m (text "sequenceSize")))) [
          | inl full ↦
              rw (given, full) (Passes-delete key (sort b) buckets out (sort b ∷ []) other d)
          | inr waiting ↦ rw (given, waiting) (Passes-put key b buckets out other d)
        ]
      ]

  Passes-trans : (r s t : Run) → Passes r s → Passes s t → Passes r t
  Passes-trans (b, out) (b', out') (b'', out'') (p, d, (zs, q)) (p', d', (zs', q')) =
      (p' ∙ p, d', (zs ++ zs', rw (q', q) (append_assoc out zs zs')))

-- A history in which the parts of one message come in, in the given order, among other messages.
pub data Mixed (id : Str) (size : ℕ) : List Message → List Message → Type 0 where
  done : Mixed id size [] []
  part :
      {m : Message} {ms mine : List Message}
      → IsPart id size m
      → Mixed id size ms mine
      → Mixed id size (m ∷ ms) (m ∷ mine)
  other :
      {m : Message} {ms mine : List Message}
      → IsOther id m
      → Mixed id size ms mine
      → Mixed id size (m ∷ ms) mine

module _ (id : Str) (size : ℕ) where
  others-Passes :
      {ms mine : List Message} (r : Run)
      → Mixed id size ms mine
      → mine ≡ []
      → Distinct r.0
      → Passes id size r (run ms r)
  unfolding run
  others-Passes r done p d = (refl, d, ([], sym (append-nil r.1)))
  others-Passes r (part q h) p d = absurd (cc p)
  others-Passes r (other {m} {ms} q h) p d =
      let step = other-Passes id size m r.0 r.1 q d in
      Passes-trans id size r (on_message collect m r).1 _ step
        (others-Passes (on_message collect m r).1 h p step.1)

  -- The parts were released once as one list, and the bucket is gone.
  abbrev pub Released : List Message → Run → Type 0
  Released parts (buckets, out) =
      (xs : List (List Message)) × (ys : List (List Message)) × (out ≡ xs ++ parts ∷ ys)
      × (get buckets id ≡ none)

  bucket_of-put : (buckets : Buckets) (b : List Message) → bucket_of (put buckets id b) id ≡ b
  unfolding bucket_of
  bucket_of-put buckets b = ground (arith, get-put buckets id id b, eq_refl id)

  bucket_of-get : (b b' : Buckets) → get b' id ≡ get b id → bucket_of b' id ≡ bucket_of b id
  unfolding bucket_of
  bucket_of-get b b' p = rw (p, bucket_of) refl

  List-cases : (ms : List Message) → (ms ≡ []) ⊎ ((ms ≢ []) × (1 ≤ length ms))
  List-cases [] = inl refl
  List-cases (m ∷ ms) = inr ((λ p. cc), omega arith)

  finish :
      (m : Message) {ms : List Message} {rest : List Message} (b : Buckets)
      (out : List (List Message))
      → IsPart id size m
      → Mixed id size ms rest
      → rest ≡ []
      → Distinct b
      → size ≤ suc (length (bucket_of b id))
      → Released (sort (bucket_of b id ++ m ∷ [])) (run ms (on_message collect m (b, out)).1)
  finish m b out q h p d full =
      let all = sort (bucket_of b id ++ m ∷ []) in
      let d' = put-Distinct b id all d in
      let (look, _, (zs, grown)) =
        others-Passes (delete (put b id all) id, out ++ all ∷ []) h p (delete-Distinct _ id d') in
      rw (completes id size m b out q full)
        (out, zs, grown ∙ append_assoc out (all ∷ []) zs, look ∙ get_of_delete (put b id all) id d')

  gather :
      {ms mine : List Message} (b : Buckets) (out : List (List Message))
      → Mixed id size ms mine
      → mine ≢ []
      → Distinct b
      → length (bucket_of b id) + length mine ≡ size
      → Released (sort (bucket_of b id ++ mine)) (run ms (b, out))
  unfolding run
  gather b out done more d n = absurd (more refl)
  gather b out (part {m} {ms} {mine = rest} q h) more d n = elim (List-cases rest) [
    | inl p ↦
        subst
          (λ l.
            Released (sort (bucket_of b id ++ m ∷ l)) (run ms (on_message collect m (b, out)).1))
          (sym p) (finish m b out q h p d (omega (arith, ap length p)))
    | inr (p, pos) ↦
        let b' = put b id (bucket_of b id ++ m ∷ []) in
        let same = bucket_of-put b (bucket_of b id ++ m ∷ []) in
        subst (λ r. Released (sort (bucket_of b id ++ m ∷ rest)) (run ms r))
          (sym (waits id size m b out q (omega arith)))
          (subst (λ l. Released (sort l) (run ms (b', out)))
            (ap (λ l. l ++ rest) same ∙ append_assoc (bucket_of b id) (m ∷ []) rest)
            (gather b' out h p (put-Distinct b id _ d)
              (omega (arith, ap length same, length-append (bucket_of b id) (m ∷ [])))))
  ]
  gather b out (other {m} {ms} {mine} q h) more d n =
      let r = (on_message collect m (b, out)).1 in
      let step = other-Passes id size m b out q d in
      let same = bucket_of-get b r.0 step.0 in
      subst (λ l. Released (sort (l ++ mine)) (run ms r)) same
        (gather r.0 r.1 h more step.1 (omega (arith, ap length same)))

bucket_of_absent : (b : Buckets) (id : Str) → get b id ≡ none → bucket_of b id ≡ []
unfolding bucket_of
bucket_of_absent b id p = rw (p, bucket_of) refl

-- The parts of a split message, at least one, numbered in order and arriving in any order among
-- messages with other ids, are released as one list in the order of their numbers, and nothing is
-- kept of them. Nothing of that id was there before, each part states the number of parts, and the
-- releases do not fail.
pub parts-Released :
    (id : Str) (size : ℕ) {ms mine parts : List Message} (buckets : Buckets)
    (out : List (List Message))
    → Mixed id size ms mine
    → Permᴰ parts mine
    → Ascending parts
    → length mine ≡ size
    → 0 < size
    → Distinct buckets
    → get buckets id ≡ none
    → Released id size parts (run ms (buckets, out))
parts-Released id size {ms} {mine} {parts} buckets out h q up n pos d new =
    let empty : bucket_of buckets id ≡ [] = bucket_of_absent buckets id new in
    let sorted : sort mine ≡ parts =
      sym (sort-permᴰ q (Ascending-Numbered parts up)) ∙ sort_of_Ascending parts up in
    subst (λ l. Released id size l (run ms (buckets, out)))
      (ap (λ l. sort (l ++ mine)) empty ∙ sorted)
      (gather id size buckets out h (λ e. absurd (omega (arith, ap length e))) d
        (omega (arith, ap length empty)))
