-- ===== src/Dispatchers/Exchange/Topical/Meaning.antt =====
-- exchange.js, the topical matcher: what the tests of the words decide on a topic.
use msgs.Base.{
  ℕ, Bool, true, false, List, [], ◌∷◌, ◌++◌, ◌==◌, ◌&&◌, ◌||◌, ◌≡◌, refl, sym, ap, ◌∙◌, nat_eq, All,
  arith,
}
use msgs.Js.Text.{Str, str_eq}
use msgs.Js.RegExp.{exactly, any, any_but, test_one, test_many, is_empty, is_line_terminator}
use msgs.Dispatchers.Exchange.Topical.Reading.{
  test_literal, test_segment, test_leading, test_trailing, test_body, test_subscription,
}
use msgs.Dispatchers.Exchange.Topical.Words.{
  Segment, literal, star, Body, end, end_hash, next, next_hash, Subscription, nothing, only_hash,
  body, hash_body, Word, hash, words, body_words, after, dotted, segment_matches, topic_matches,
  IsPlain, IsSegment, IsBody, IsSubscription, IsTopicUnit, IsTopicWord, IsFilled,
}

-- A test that fails inside a word.
abbrev AtBoundary : (Str → Bool) → Type 0
AtBoundary k = (x : ℕ) (s : Str) → (b'.' == x) ≡ false → k (x ∷ s) ≡ false

dot-AtBoundary : (k : Str → Bool) → AtBoundary (test_one (exactly b'.') k)
dot-AtBoundary k x s h = rw h refl

or-false : (b : Bool) → (b || false) ≡ b
or-false true = refl
or-false false = refl

and_assoc : (a b c : Bool) → (a && (b && c)) ≡ ((a && b) && c)
and_assoc true b c = refl
and_assoc false b c = refl

or_comm : (b c : Bool) → (b || c) ≡ (c || b)
or_comm true true = refl
or_comm true false = refl
or_comm false c = sym (or-false c)

plain_ne_dot : (c : ℕ) → IsPlain c → (c == b'.') ≡ false
plain_ne_dot c v = ground arith

test_literal_lem :
    (s t : Str) (ts : List Str) (k : Str → Bool)
    → All IsPlain s
    → All IsTopicUnit t
    → AtBoundary k
    → test_literal s k (t ++ after ts) ≡ (s == t) && k (after ts)
test_literal_lem [] [] ts k v w b = refl
test_literal_lem [] (y ∷ t) ts k v w b = b y (t ++ after ts) w.0.1
test_literal_lem (x ∷ s) [] [] k v w b = refl
test_literal_lem (x ∷ s) [] (u ∷ us) k v w b = rw (plain_ne_dot x v.0) refl
test_literal_lem (x ∷ s) (y ∷ t) ts k v w b =
    rw (test_literal_lem s t ts k v.1 w.1 b) (and_assoc (x == y) (s == t) (k (after ts)))

test_star_lem :
    (t : Str) (ts : List Str) (k : Str → Bool)
    → IsTopicWord t
    → AtBoundary k
    → test_many (any_but b'.') k (t ++ after ts) ≡ k (after ts)
test_star_lem [] ts k v b = absurd v.0
test_star_lem (y ∷ []) [] k v b = rw v.1.0.1 (or-false (k []))
test_star_lem (y ∷ []) (u ∷ us) k v b = rw v.1.0.1 (or-false (k (b'.' ∷ u ++ after us)))
test_star_lem (y ∷ z ∷ t) ts k v b =
    rw (v.1.0.1, b z (t ++ after ts) v.1.1.0.1) (test_star_lem (z ∷ t) ts k (tt, v.1.1) b)

test_segment_lem :
    (w : Segment) (t : Str) (ts : List Str) (k : Str → Bool)
    → IsSegment w
    → IsTopicWord t
    → AtBoundary k
    → test_segment w k (t ++ after ts) ≡ segment_matches w t && k (after ts)
test_segment_lem (literal s) t ts k v u b = test_literal_lem s t ts k v.1 u.1 b
test_segment_lem star t ts k v u b = test_star_lem t ts k u b

test_segment_none : (w : Segment) (k : Str → Bool) → IsSegment w → test_segment w k [] ≡ false
test_segment_none (literal []) k v = absurd v.0
test_segment_none (literal (c ∷ s)) k v = refl
test_segment_none star k v = refl

-- `.+` up to the end of a topic.
test_rest_lem :
    (s : Str)
    → IsFilled s
    → All (λ c. is_line_terminator c ≡ false) s
    → test_many any is_empty s ≡ true
test_rest_lem [] f v = absurd f
test_rest_lem (c ∷ []) f v = rw v.0 refl
test_rest_lem (c ∷ d ∷ s) f v = rw v.0 (test_rest_lem (d ∷ s) tt v.1)

topic_units :
    (t : Str) (ts : List Str)
    → All IsTopicUnit t
    → All IsTopicWord ts
    → All (λ c. is_line_terminator c ≡ false) (t ++ after ts)
topic_units [] [] v vs = tt
topic_units [] (u ∷ us) v vs = (refl, topic_units u us vs.0.1 vs.1)
topic_units (c ∷ t) ts v vs = (v.0.0, topic_units t ts v.1 vs)

test_rest-topic :
    (t : Str) (ts : List Str)
    → IsTopicWord t
    → All IsTopicWord ts
    → test_many any is_empty (t ++ after ts) ≡ true
test_rest-topic [] ts v vs = absurd v.0
test_rest-topic (c ∷ t) ts v vs =
    test_rest_lem (c ∷ t ++ after ts) tt (topic_units (c ∷ t) ts v.1 vs)

hash-all : (ts : List Str) → topic_matches (hash ∷ []) ts ≡ true
unfolding topic_matches
hash-all [] = refl
hash-all (t ∷ ts) = rw (hash-all ts) refl

-- `.+\.` in front of a test that decides on the words of a topic: some words but the last are left out.
module _ (k : Str → Bool) (ws : List Word)
    (decides : (ts : List Str) → All IsTopicWord ts → k (dotted ts) ≡ topic_matches ws ts)
    (not_none : topic_matches ws [] ≡ false) where
  abbrev dropping : Str → Bool
  dropping = test_many any (test_one (exactly b'.') k)

  dropping_lem :
      (ts : List Str) (t : Str)
      → IsTopicWord t
      → All IsTopicWord ts
      → dropping (t ++ after ts) ≡ topic_matches (hash ∷ ws) ts
  unfolding topic_matches
  dropping_lem ts [] v vs = absurd v.0
  dropping_lem [] (y ∷ []) v vs = rw (v.1.0.0, not_none) refl
  dropping_lem ([] ∷ us) (y ∷ []) v vs = absurd vs.0.0
  dropping_lem ((x ∷ u) ∷ us) (y ∷ []) v vs =
      rw (v.1.0.0, decides ((x ∷ u) ∷ us) vs, vs.0.1.0.1)
        (ap (λ b. topic_matches ws ((x ∷ u) ∷ us) || b) (dropping_lem us (x ∷ u) vs.0 vs.1))
  dropping_lem ts (y ∷ z ∷ t) v vs =
      rw (v.1.0.0, v.1.1.0.1) (dropping_lem ts (z ∷ t) (tt, v.1.1) vs)

  test_leading_lem :
      (ts : List Str)
      → All IsTopicWord ts
      → test_leading k (dotted ts) ≡ topic_matches (hash ∷ ws) ts
  unfolding topic_matches
  test_leading_lem [] vs = decides [] tt
  test_leading_lem (t ∷ ts) vs =
      rw (dropping_lem ts t vs.0 vs.1, decides (t ∷ ts) vs)
        (or_comm (topic_matches (hash ∷ ws) ts) (topic_matches ws (t ∷ ts)))

none_of_body : (b : Body) → topic_matches (body_words b) [] ≡ false
unfolding topic_matches
none_of_body (end w) = refl
none_of_body (end_hash w) = refl
none_of_body (next w b) = refl
none_of_body (next_hash w b) = refl

trailing-AtBoundary : AtBoundary (test_trailing is_empty)
trailing-AtBoundary x s h = rw h refl

none-after : (ts : List Str) → is_empty (after ts) ≡ topic_matches [] ts
unfolding topic_matches
none-after [] = refl
none-after (t ∷ ts) = refl

trailing-after : (ts : List Str) → All IsTopicWord ts → test_trailing is_empty (after ts) ≡ true
trailing-after [] vs = refl
trailing-after (t ∷ ts) vs = rw (test_rest-topic t ts vs.0 vs.1) refl

-- A test behind a dot decides on the words that are left.
dot-after :
    (k : Str → Bool) (ws : List Word) (ts : List Str)
    → ((us : List Str) → All IsTopicWord us → k (dotted us) ≡ topic_matches ws us)
    → topic_matches ws [] ≡ false
    → All IsTopicWord ts
    → test_one (exactly b'.') k (after ts) ≡ topic_matches ws ts
dot-after k ws [] decides n vs = sym n
dot-after k ws (t ∷ ts) decides n vs = decides (t ∷ ts) vs

test_body_lem :
    (b : Body) (ts : List Str)
    → IsBody b
    → All IsTopicWord ts
    → test_body b is_empty (dotted ts) ≡ topic_matches (body_words b) ts
unfolding topic_matches
test_body_lem (end w) [] v vs = test_segment_none w is_empty v
test_body_lem (end_hash w) [] v vs = test_segment_none w _ v
test_body_lem (next w b) [] v vs = test_segment_none w _ v.0
test_body_lem (next_hash w b) [] v vs = test_segment_none w _ v.0
test_body_lem (end w) (t ∷ ts) v vs =
    test_segment_lem w t ts is_empty v vs.0 (λ x s h. refl)
    ∙ ap (λ m. segment_matches w t && m) (none-after ts)
test_body_lem (end_hash w) (t ∷ ts) v vs =
    test_segment_lem w t ts _ v vs.0 trailing-AtBoundary
    ∙ ap (λ m. segment_matches w t && m) (trailing-after ts vs.1 ∙ sym (hash-all ts))
test_body_lem (next w b) (t ∷ ts) v vs =
    test_segment_lem w t ts _ v.0 vs.0 (dot-AtBoundary (test_body b is_empty))
    ∙ ap (λ m. segment_matches w t && m)
        (dot-after (test_body b is_empty) (body_words b) ts (λ us h. test_body_lem b us v.1 h)
          (none_of_body b) vs.1)
test_body_lem (next_hash w b) (t ∷ ts) v vs =
    test_segment_lem w t ts _ v.0 vs.0 (dot-AtBoundary (test_leading (test_body b is_empty)))
    ∙ ap (λ m. segment_matches w t && m)
        (dot-after (test_leading (test_body b is_empty)) (hash ∷ body_words b) ts
          (test_leading_lem (test_body b is_empty) (body_words b) (λ us h. test_body_lem b us v.1 h)
            (none_of_body b))
          (none_of_body b) vs.1)

-- The test of a subscription decides the binding rules.
pub test_subscription-topic_matches :
    (s : Subscription) (ts : List Str)
    → IsSubscription s
    → All IsTopicWord ts
    → test_subscription s (dotted ts) ≡ topic_matches (words s) ts
unfolding topic_matches
test_subscription-topic_matches nothing [] v vs = refl
test_subscription-topic_matches nothing ([] ∷ ts) v vs = absurd vs.0.0
test_subscription-topic_matches nothing ((c ∷ t) ∷ ts) v vs = refl
test_subscription-topic_matches only_hash [] v vs = refl
test_subscription-topic_matches only_hash (t ∷ ts) v vs =
    rw (test_rest-topic t ts vs.0 vs.1, hash-all ts) refl
test_subscription-topic_matches (body b) ts v vs = test_body_lem b ts v vs
test_subscription-topic_matches (hash_body b) ts v vs =
    test_leading_lem (test_body b is_empty) (body_words b) (λ us h. test_body_lem b us v h)
      (none_of_body b) ts vs
