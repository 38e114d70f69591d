-- ===== src/Aggregators/Batching/Complete.antt =====
-- Histories of a batching aggregator whose output channel resolves: the release of a batch then
-- returns, and the batches that the channel has been sent stand in a list.
use msgs.Aggregators.Batching.{is_pending}
use mathlib.Core.List.{flatten}
use msgs.Js.Effect.{Js, ok}
use msgs.Base.{
  List, [], ap, append-nil, append_assoc, arith, sym, ℕ, ◌++◌, ◌∙◌, ◌∷◌, ◌≡◌, All, All-append,
  length, length-append, ◌<◌, ◌≤◌, Bool-cases, inl, inr, leb, ltb, suc, ◌&&◌, ◌⊎◌,
}
use msgs.Js.Value.{Value}
use msgs.Aggregators.Batching.{Batching, Options, on_message, on_timer}

-- A message with a payload comes in, or the runtime fires a timer.
pub data Event : Type 0 where
  arrives : Value → Event
  fires : ℕ → Event

abbrev pub Run : Type 0
Run = Batching × List (List Value)

unfoldable pub collect : List Value → Js Run (Unit {0})
collect batch (s, out) = (ok tt, (s, out ++ batch ∷ []))

unfoldable pub step : Options → Event → Run → Run
unfolding on_message on_timer collect
step opts (arrives v) r = (on_message collect opts v r).1
step opts (fires id) r = (on_timer collect id r).1

unfoldable pub run : Options → List Event → Run → Run
run opts [] r = r
run opts (e ∷ es) r = run opts es (step opts e r)

abbrev pub payloads : List Event → List Value
payloads [] = []
payloads (arrives v ∷ es) = v ∷ payloads es
payloads (fires id ∷ es) = payloads es

-- What has been released and what waits.
abbrev pub all_of : Run → List Value
all_of (s, out) = flatten out ++ s.batch

flatten-concat :
    (out : List (List Value)) (b : List Value) → flatten (out ++ b ∷ []) ≡ flatten out ++ b
unfolding flatten
flatten-concat [] b = append-nil b
flatten-concat (x ∷ out) b =
    ap (◌++◌ x) (flatten-concat out b) ∙ sym (append_assoc x (flatten out) b)

arrival :
    (opts : Options) (v : Value) (s : Batching) (out : List (List Value))
    → all_of (step opts (arrives v) (s, out)) ≡ all_of (s, out) ++ v ∷ []
unfolding step
arrival opts v s out = ground (
  arith,
  flatten-concat out (s.batch ++ v ∷ []),
  append-nil (flatten (out ++ (s.batch ++ v ∷ []) ∷ [])),
  append_assoc (flatten out) s.batch (v ∷ []),
)

firing :
    (opts : Options) (id : ℕ) (s : Batching) (out : List (List Value))
    → all_of (step opts (fires id) (s, out)) ≡ all_of (s, out)
unfolding step
firing opts id s out =
    ground (arith, flatten-concat out s.batch, append-nil (flatten (out ++ s.batch ∷ [])))

-- Whatever messages come in and timers fire, if the releases do not fail, the released batches
-- followed by the batch that waits hold what they held before and then the payloads that came in,
-- each once and in the order of arrival.
pub run_complete :
    (opts : Options) (es : List Event) (r : Run) → all_of (run opts es r) ≡ all_of r ++ payloads es
unfolding run
run_complete opts [] r = sym (append-nil (all_of r))
run_complete opts (arrives v ∷ es) (s, out) =
    run_complete opts es (step opts (arrives v) (s, out))
    ∙ ap (λ l. l ++ payloads es) (arrival opts v s out)
    ∙ append_assoc (all_of (s, out)) (v ∷ []) (payloads es)
run_complete opts (fires id ∷ es) (s, out) =
    run_complete opts es (step opts (fires id) (s, out))
    ∙ ap (λ l. l ++ payloads es) (firing opts id s out)

-- With a batch size, less than a full batch waits, and no batch is larger than the size.
abbrev pub FitsSize : Options → Run → Type 0
FitsSize opts (s, out) = (length s.batch < opts.batch) × All (λ b. length b ≤ opts.batch) out

-- A step releases nothing, or one batch: the one that waits, with the new payload if there is one.
abbrev Releases : List (List Value) → List Value → List (List Value) → Type 0
Releases out waiting out' =
    (out' ≡ out) ⊎ ((b : List Value) × (out' ≡ out ++ b ∷ []) × (length b ≤ suc (length waiting)))

arrival-Releases :
    (opts : Options) (v : Value) (s : Batching) (out : List (List Value))
    → Releases out s.batch (step opts (arrives v) (s, out)).1
unfolding step
arrival-Releases opts v s out =
    elim (Bool-cases (ltb 0 opts.batch && leb opts.batch (length (s.batch ++ v ∷ [])))) [
      | inl p ↦
          inr (s.batch ++ v ∷ [], ground (arith, p), omega (arith, length-append s.batch (v ∷ [])))
      | inr p ↦ inl (ground (arith, p))
    ]

firing-Releases :
    (opts : Options) (id : ℕ) (s : Batching) (out : List (List Value))
    → Releases out s.batch (step opts (fires id) (s, out)).1
unfolding step
firing-Releases opts id s out =
    elim (Bool-cases (is_pending {W = List (List Value)} collect id s.timers)) [
      | inl p ↦ inr (s.batch, ground (arith, p), omega arith)
      | inr p ↦ inl (ground (arith, p))
    ]

Releases-fit :
    (n : ℕ) (out out' : List (List Value)) (waiting : List Value)
    → length waiting < n
    → All (λ b. length b ≤ n) out
    → Releases out waiting out'
    → All (λ b. length b ≤ n) out'
Releases-fit n out out' waiting small fit (inl p) = rw p fit
Releases-fit n out out' waiting small fit (inr (b, p, short)) =
    rw p (All-append (λ b. length b ≤ n) out (b ∷ []) fit (omega arith, tt))

step-FitsSize :
    (opts : Options) (e : Event) (r : Run) → FitsSize opts r → FitsSize opts (step opts e r)
unfolding step
step-FitsSize opts (arrives v) (s, out) (small, fit) = (
  ground (arith, length-append s.batch (v ∷ [])),
  Releases-fit opts.batch out _ s.batch small fit (arrival-Releases opts v s out),
)
step-FitsSize opts (fires id) (s, out) (small, fit) =
    (ground arith, Releases-fit opts.batch out _ s.batch small fit (firing-Releases opts id s out))

-- From a state in which less than a full batch waits and every released batch is at most as long as
-- the batch size, after any events both are still so, if the releases do not fail.
pub run-FitsSize :
    (opts : Options) (es : List Event) (r : Run) → FitsSize opts r → FitsSize opts (run opts es r)
unfolding run
run-FitsSize opts [] r h = h
run-FitsSize opts (e ∷ es) r h = run-FitsSize opts es (step opts e r) (step-FitsSize opts e r h)
