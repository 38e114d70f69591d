-- ===== src/Dispatchers/Exchange/Topical/Reading.antt =====
-- exchange.js, the topical matcher: the regular expression that the pattern of a subscription is read
-- as, and its test as a test for each word.
use msgs.Base.{ℕ, Bool, [], ◌∷◌, ◌++◌, ◌||◌, ◌≡◌, refl, ap, sym, append-nil, ◌∙◌, nat_eq, All, some}
use msgs.Js.Text.{Str}
use msgs.Js.RegExp.{
  Sequence, start, then_atom, one, many, maybe, exactly, any, any_but, Reader, between, read_unit,
  read_units, parse_pattern, test_one, test_many, test_sequence, finished, is_empty, full_match,
}
use msgs.Dispatchers.Exchange.Topical.Replacing.{
  segment_pattern, body_pattern, subscription_pattern,
}
use msgs.Dispatchers.Exchange.Topical.Words.{
  Segment, literal, star, Body, end, end_hash, next, next_hash, Subscription, nothing, only_hash,
  body, hash_body, IsPlain, IsSegment, IsBody, IsSubscription,
}

abbrev dot : Sequence → Sequence
dot rs = then_atom rs (one (exactly b'.'))

-- `(?:.+\.)?`
abbrev leading : Sequence → Sequence
leading rs = then_atom rs (maybe (dot (then_atom start (many any))))

-- `(?:\..+)?`
abbrev trailing : Sequence → Sequence
trailing rs = then_atom rs (maybe (then_atom (dot start) (many any)))

-- `(?:.+)?`
abbrev anything : Sequence → Sequence
anything rs = then_atom rs (maybe (then_atom start (many any)))

abbrev onto_literal : Sequence → Str → Sequence
onto_literal rs [] = rs
onto_literal rs (c ∷ s) = onto_literal (then_atom rs (one (exactly c))) s

abbrev onto_segment : Sequence → Segment → Sequence
onto_segment rs (literal s) = onto_literal rs s
onto_segment rs star = then_atom rs (many (any_but b'.'))

abbrev onto_body : Sequence → Body → Sequence
onto_body rs (end w) = onto_segment rs w
onto_body rs (end_hash w) = trailing (onto_segment rs w)
onto_body rs (next w b) = onto_body (dot (onto_segment rs w)) b
onto_body rs (next_hash w b) = onto_body (leading (dot (onto_segment rs w))) b

abbrev pub sequence_of : Subscription → Sequence
sequence_of nothing = start
sequence_of only_hash = anything start
sequence_of (body b) = onto_body start b
sequence_of (hash_body b) = onto_body (leading start) b

abbrev reader : Sequence → Reader
reader rs = record { mode = between; current = rs; outer = [] }

read_plain :
    (rs : Sequence) (c : ℕ)
    → IsPlain c
    → read_unit between (reader rs) c ≡ some (reader (then_atom rs (one (exactly c))))
read_plain rs c v = rw v.0 refl

read_literal :
    (rs : Sequence) (s rest : Str)
    → All IsPlain s
    → read_units (some (reader rs)) (s ++ rest)
      ≡ read_units (some (reader (onto_literal rs s))) rest
unfolding read_units
read_literal rs [] rest v = refl
read_literal rs (c ∷ s) rest v =
    ap (λ r. read_units r (s ++ rest)) (read_plain rs c v.0)
    ∙ read_literal (then_atom rs (one (exactly c))) s rest v.1

read_segment :
    (rs : Sequence) (w : Segment) (rest : Str)
    → IsSegment w
    → read_units (some (reader rs)) (segment_pattern w ++ rest)
      ≡ read_units (some (reader (onto_segment rs w))) rest
unfolding read_units
read_segment rs (literal s) rest v = read_literal rs s rest v.1
read_segment rs star rest v = refl

read_body :
    (rs : Sequence) (b : Body)
    → IsBody b
    → read_units (some (reader rs)) (body_pattern b) ≡ some (reader (onto_body rs b))
unfolding read_units
read_body rs (end w) v =
    ap (λ s. read_units (some (reader rs)) s) (sym (append-nil (segment_pattern w)))
    ∙ read_segment rs w [] v
read_body rs (end_hash w) v = read_segment rs w _ v
read_body rs (next w b) v = read_segment rs w _ v.0 ∙ read_body (dot (onto_segment rs w)) b v.1
read_body rs (next_hash w b) v =
    read_segment rs w _ v.0 ∙ read_body (leading (dot (onto_segment rs w))) b v.1

-- What the pattern of a subscription is compiled to.
pub parse-subscription_pattern :
    (s : Subscription)
    → IsSubscription s
    → parse_pattern (subscription_pattern s) ≡ some (sequence_of s)
unfolding parse_pattern read_units
parse-subscription_pattern nothing v = refl
parse-subscription_pattern only_hash v = refl
parse-subscription_pattern (body b) v = ap finished (read_body start b v)
parse-subscription_pattern (hash_body b) v = ap finished (read_body (leading start) b v)

-- The tests, from the front.
abbrev pub test_literal : Str → (Str → Bool) → Str → Bool
test_literal [] k = k
test_literal (c ∷ s) k = test_one (exactly c) (test_literal s k)

abbrev pub test_segment : Segment → (Str → Bool) → Str → Bool
test_segment (literal s) k = test_literal s k
test_segment star k = test_many (any_but b'.') k

abbrev pub test_leading : (Str → Bool) → Str → Bool
test_leading k s = test_many any (test_one (exactly b'.') k) s || k s

abbrev pub test_trailing : (Str → Bool) → Str → Bool
test_trailing k s = test_one (exactly b'.') (test_many any k) s || k s

abbrev pub test_body : Body → (Str → Bool) → Str → Bool
test_body (end w) k = test_segment w k
test_body (end_hash w) k = test_segment w (test_trailing k)
test_body (next w b) k = test_segment w (test_one (exactly b'.') (test_body b k))
test_body (next_hash w b) k =
    test_segment w (test_one (exactly b'.') (test_leading (test_body b k)))

abbrev pub test_subscription : Subscription → Str → Bool
test_subscription nothing s = is_empty s
test_subscription only_hash s = test_many any is_empty s || is_empty s
test_subscription (body b) s = test_body b is_empty s
test_subscription (hash_body b) s = test_leading (test_body b is_empty) s

test-onto_literal :
    (rs : Sequence) (s : Str) (k : Str → Bool)
    → test_sequence (onto_literal rs s) k ≡ test_sequence rs (test_literal s k)
unfolding test_sequence
test-onto_literal rs [] k = refl
test-onto_literal rs (c ∷ s) k = test-onto_literal (then_atom rs (one (exactly c))) s k

test-onto_segment :
    (rs : Sequence) (w : Segment) (k : Str → Bool)
    → test_sequence (onto_segment rs w) k ≡ test_sequence rs (test_segment w k)
unfolding test_sequence
test-onto_segment rs (literal s) k = test-onto_literal rs s k
test-onto_segment rs star k = refl

test-onto_body :
    (rs : Sequence) (b : Body) (k : Str → Bool)
    → test_sequence (onto_body rs b) k ≡ test_sequence rs (test_body b k)
unfolding test_sequence
test-onto_body rs (end w) k = test-onto_segment rs w k
test-onto_body rs (end_hash w) k = test-onto_segment rs w (test_trailing k)
test-onto_body rs (next w b) k =
    test-onto_body (dot (onto_segment rs w)) b k
    ∙ test-onto_segment rs w (test_one (exactly b'.') (test_body b k))
test-onto_body rs (next_hash w b) k =
    test-onto_body (leading (dot (onto_segment rs w))) b k
    ∙ test-onto_segment rs w (test_one (exactly b'.') (test_leading (test_body b k)))

pub full_match-sequence_of : (s : Subscription) → full_match (sequence_of s) ≡ test_subscription s
unfolding full_match test_sequence
full_match-sequence_of nothing = refl
full_match-sequence_of only_hash = refl
full_match-sequence_of (body b) = test-onto_body start b is_empty
full_match-sequence_of (hash_body b) = test-onto_body (leading start) b is_empty
