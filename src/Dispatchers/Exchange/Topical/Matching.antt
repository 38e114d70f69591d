-- ===== src/Dispatchers/Exchange/Topical/Matching.antt =====
-- exchange.js, the topical matcher with its cache.
use msgs.Base.{
  List, [], ◌∷◌, Option, none, some, ◌≡◌, sym, ap, ◌∙◌, ◌==◌, eq_iff, All, nat_eq, inl, inr,
  Option-cases, Bool-cases,
}
use msgs.Js.Text.{Str, str_eq}
use msgs.Js.Effect.{Outcome, ok, Outcome-cases}
use msgs.Js.Object.{Object, get, put}
use msgs.Js.Object.Laws.{get-put}
use msgs.Js.Value.{Value, to_string}
use msgs.Dispatchers.Exchange.Topical.{RegExp, new_reg_exp, pattern_of, cached, topical_matcher}
use msgs.Dispatchers.Exchange.Topical.Words.{
  Subscription, subscription_text, words, dotted, topic_matches, IsSubscription, IsTopicWord,
}
use msgs.Dispatchers.Exchange.Topical.Pattern.{pattern_of-subscription_text}
use msgs.Dispatchers.Exchange.Topical.Reading.{
  parse-subscription_pattern, full_match-sequence_of, test_subscription,
}
use msgs.Dispatchers.Exchange.Topical.Meaning.{test_subscription-topic_matches}

module _ (other : Str → Outcome RegExp) where
  -- What the cache keeps is what would be compiled again.
  abbrev IsCoherent : Object RegExp → Type 0
  IsCoherent cache =
      (s : Str) (re : RegExp) → get cache s ≡ some re → new_reg_exp other (pattern_of s) ≡ ok re

  put-IsCoherent :
      (cache : Object RegExp) (s : Str) (re : RegExp)
      → new_reg_exp other (pattern_of s) ≡ ok re
      → IsCoherent cache
      → IsCoherent (put cache s re)
  put-IsCoherent cache s re made c t re' h = elim (Bool-cases (s == t)) [
    | inl same ↦
        let e : s ≡ t = (eq_iff s t).0 same in
        let p : some re ≡ some re' = rw (get-put cache s t re, same) at h in rw (← e) (made ∙ cc)
    | inr differs ↦ c t re' (rw (get-put cache s t re, differs) at h)
  ]

  cached-IsCoherent :
      (s : Str) (o : Option RegExp) (cache : Object RegExp)
      → IsCoherent cache
      → IsCoherent (cached other s o cache).1
  unfolding cached
  cached-IsCoherent s (some re) cache c = c
  cached-IsCoherent s none cache c = elim (Outcome-cases (new_reg_exp other (pattern_of s))) [
    | inl (re, p) ↦ rw p (put-IsCoherent cache s re p c)
    | inr (inl (e, p)) ↦ rw p c
    | inr (inr p) ↦ rw p c
  ]

  -- The cache after calls of the matcher, whatever they return or throw.
  unfoldable pub after_matches : Object RegExp → List (Str × Value) → Object RegExp
  after_matches cache [] = cache
  after_matches cache ((s, v) ∷ calls) = after_matches (topical_matcher other s v cache).1 calls

  empty-IsCoherent : IsCoherent []
  unfolding get
  empty-IsCoherent s re h = cc

  matcher-IsCoherent :
      (s : Str) (v : Value) (cache : Object RegExp)
      → IsCoherent cache
      → IsCoherent (topical_matcher other s v cache).1
  unfolding topical_matcher
  matcher-IsCoherent s v cache c =
      let kept = cached-IsCoherent s (get cache s) cache c in
      elim (Outcome-cases (cached other s (get cache s) cache).0) [
        | inl (re, p) ↦ rw p kept
        | inr (inl (e, p)) ↦ rw p kept
        | inr (inr p) ↦ rw p kept
      ]

  after_matches-IsCoherent :
      (calls : List (Str × Value)) (cache : Object RegExp)
      → IsCoherent cache
      → IsCoherent (after_matches cache calls)
  unfolding after_matches
  after_matches-IsCoherent [] cache c = c
  after_matches-IsCoherent ((s, v) ∷ calls) cache c =
      after_matches-IsCoherent calls (topical_matcher other s v cache).1
        (matcher-IsCoherent s v cache c)

  compiled :
      (s : Subscription)
      → IsSubscription s
      → new_reg_exp other (pattern_of (subscription_text s)) ≡ ok (test_subscription s)
  unfolding new_reg_exp
  compiled s v =
      rw (pattern_of-subscription_text s v)
        (rw (parse-subscription_pattern s v, new_reg_exp) (ap ok (full_match-sequence_of s)))

  module _ (s : Subscription) (ts : List Str) (v : IsSubscription s) (vs : All IsTopicWord ts) where
    matched :
        (cache : Object RegExp)
        → IsCoherent cache
        → (topical_matcher other (subscription_text s) (Value.str (dotted ts)) cache).0
          ≡ ok (topic_matches (words s) ts)
    unfolding topical_matcher cached to_string
    matched cache c = elim (Option-cases (get cache (subscription_text s))) [
      | inl new ↦ rw (new, compiled s v) (ap ok (test_subscription-topic_matches s ts v vs))
      | inr (re, old) ↦
          let e : re ≡ test_subscription s =
            let q = sym (c (subscription_text s) re old) ∙ compiled s v in cc q in
          rw (old, e) (ap ok (test_subscription-topic_matches s ts v vs))
    ]

  -- The topical matcher, of a subscription in which no `#` follows another and whose literal words are
  -- not empty and have no unit that regular expressions read otherwise, and of a topic of words that
  -- are not empty and have no dot and no line terminator: whatever it was called with before, and
  -- whatever it threw, it returns whether the words of the topic fit those of the subscription, where a
  -- `*` stands for one word and a `#` for any number of words.
  pub topical_matcher-topic_matches :
      (calls : List (Str × Value)) (s : Subscription) (ts : List Str)
      → IsSubscription s
      → All IsTopicWord ts
      → (topical_matcher other
          (subscription_text s)
          (Value.str (dotted ts))
          (after_matches [] calls)).0
        ≡ ok (topic_matches (words s) ts)
  topical_matcher-topic_matches calls s ts v vs =
      matched s ts v vs (after_matches [] calls)
        (after_matches-IsCoherent calls [] empty-IsCoherent)
