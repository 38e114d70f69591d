-- ===== src/Aggregators/Batching/Timers.antt =====
-- The timer of a batching aggregator.
use msgs.Aggregators.Batching.{Options, initial}
use msgs.Aggregators.Batching.Complete.{arrives, fires, Run, step, Event, run}
use msgs.Base.{
  List, Option, [], arith, none, some, ℕ, ◌++◌, ◌∷◌, ◌≡◌, ◌≢◌, ◌⊎◌, inl, inr, refl, ◌<◌,
}
use msgs.Js.Value.{Value}

-- At most one timer is pending, the one that the aggregator knows, and only while a batch waits; a
-- batch waits without a timer only if no timeout is set.
abbrev pub TimerFits : ℕ → List Value → Option ℕ → List ℕ → Type 0
TimerFits limit batch none timers = (timers ≡ []) × ((batch ≡ []) ⊎ (limit ≡ 0))
TimerFits limit batch (some t) timers = (timers ≡ t ∷ []) × (batch ≢ [])

abbrev pub IsTimed : Options → Run → Type 0
IsTimed opts (s, out) = TimerFits opts.timeout s.batch s.timeout s.timers

concat-ne-nil : {A : Type 0} (xs : List A) (x : A) → xs ++ x ∷ [] ≢ []
concat-ne-nil [] x = λ p. cc
concat-ne-nil (y ∷ xs) x = λ p. cc

arrival-IsTimed :
    (opts : Options) (v : Value) (batch : List Value) (timeout : Option ℕ) (timers : List ℕ)
    (next : ℕ) (out : List (List Value))
    → TimerFits opts.timeout batch timeout timers
    → IsTimed opts (
        step opts
          (arrives v)
          (record { batch = batch; timeout = timeout; timers = timers; next_timer = next }, out))
unfolding step
arrival-IsTimed opts v batch none timers next out h = ground (arith, concat-ne-nil batch v)
arrival-IsTimed opts v batch (some t) timers next out h = ground (arith, concat-ne-nil batch v)

firing-IsTimed :
    (opts : Options) (id : ℕ) (batch : List Value) (timeout : Option ℕ) (timers : List ℕ) (next : ℕ)
    (out : List (List Value))
    → TimerFits opts.timeout batch timeout timers
    → IsTimed opts (
        step opts
          (fires id)
          (record { batch = batch; timeout = timeout; timers = timers; next_timer = next }, out))
unfolding step
firing-IsTimed opts id batch none timers next out h = ground arith
firing-IsTimed opts id batch (some t) timers next out h = ground arith

step-IsTimed :
    (opts : Options) (e : Event) (r : Run) → IsTimed opts r → IsTimed opts (step opts e r)
step-IsTimed opts (arrives v) (s, out) h =
    arrival-IsTimed opts v s.batch s.timeout s.timers s.next_timer out h
step-IsTimed opts (fires id) (s, out) h =
    firing-IsTimed opts id s.batch s.timeout s.timers s.next_timer out h

run-IsTimed :
    (opts : Options) (es : List Event) (r : Run) → IsTimed opts r → IsTimed opts (run opts es r)
unfolding run
run-IsTimed opts [] r h = h
run-IsTimed opts (e ∷ es) r h = run-IsTimed opts es (step opts e r) (step-IsTimed opts e r h)

-- What `fires t` leads to: the batch that waited is the last one released, and none waits.
abbrev pub Flushes : Options → Run → ℕ → Type 0
Flushes opts (s, out) t =
    (s.timers ≡ t ∷ [])
    × ((step opts (fires t) (s, out)).1 ≡ out ++ s.batch ∷ [])
    × ((step opts (fires t) (s, out)).0.batch ≡ [])

flush :
    (opts : Options) (batch : List Value) (timeout : Option ℕ) (timers : List ℕ) (next : ℕ)
    (out : List (List Value))
    → TimerFits opts.timeout batch timeout timers
    → 0 < opts.timeout
    → batch ≢ []
    → (t : ℕ) × Flushes opts
        (record { batch = batch; timeout = timeout; timers = timers; next_timer = next }, out)
        t
unfolding step
flush opts batch none timers next out (p, inl q) pos waits = absurd (waits q)
flush opts batch none timers next out (p, inr q) pos waits = absurd (omega arith)
flush opts batch (some t) timers next out (p, q) pos waits = (t, (p, ground arith, ground arith))

-- With a timeout, whatever messages came and timers fired since the aggregator was made, if its
-- releases do not fail: if payloads wait, then exactly one timer is pending, and when it fires it
-- releases exactly these payloads and none waits.
pub waiting_batch_is_released :
    (opts : Options) (es : List Event)
    → 0 < opts.timeout
    → (run opts es (initial, [])).0.batch ≢ []
    → (t : ℕ) × Flushes opts (run opts es (initial, [])) t
waiting_batch_is_released opts es pos waits =
    let r = run opts es (initial, []) in
    let (s, out) = r in
    flush opts s.batch s.timeout s.timers s.next_timer out
      (run-IsTimed opts es (initial, []) (refl, inl refl)) pos waits
