-- ===== src/Aggregators/Batching.antt =====
-- aggregators/batching.js: payloads are collected into batches, which are released when they are
-- full or when a timer fires. Timers are those of the runtime: `setTimeout` returns a fresh, true
-- id, and a timer that is pending may fire once. A size or a timeout that is not positive is 0.
pub mod Complete
pub mod Timers
use msgs.Base.{
  Bool, List, Option, [], eqb, false, if◌then◌else◌, leb, length, ltb, none, some, suc, true, ℕ,
  ◌&&◌, ◌++◌, ◌||◌, ◌∷◌,
}
use msgs.Js.Effect.{Js, Outcome, ok, throw, ◌>>=◌, ◌>>◌}
use msgs.Js.Value.{Value}
use msgs.Js.Text.{text}

-- What the aggregator closes over, and the timers that are pending.
pub record Batching : Type 0 where
  pub batch : List Value
  pub timeout : Option ℕ
  pub timers : List ℕ
  pub next_timer : ℕ

pub record Options : Type 0 where
  pub batch : ℕ
  pub timeout : ℕ

abbrev pub initial : Batching
initial = record { batch = []; timeout = none; timers = []; next_timer = 1 }

-- The check at construction.
unfoldable pub batching_aggregator : Options → Outcome Batching
batching_aggregator opts =
    if leb opts.batch 0 && leb opts.timeout 0
    then throw
        (Value.error_object (text "Invalid configuration: batch size or timeout must be defined"))
    else ok initial

remove_timer : ℕ → List ℕ → List ℕ
remove_timer id [] = []
remove_timer id (t ∷ ts) = let rest = remove_timer id ts in if eqb t id then rest else t ∷ rest

-- `clearTimeout(id)`; clearing no timer, or one that is not pending, does nothing
clear_timeout : Option ℕ → List ℕ → List ℕ
unfolding remove_timer
clear_timeout none ts = ts
clear_timeout (some id) ts = remove_timer id ts

module _ {W : Type 0} (release : List Value → Js (Batching × W) (Unit {0})) where
  reset : Js (Batching × W) (Unit {0})
  unfolding clear_timeout
  reset (s, w) = (
    ok tt,
    (record s { batch = []; timers = clear_timeout s.timeout s.timers; timeout = none }, w),
  )

  unfoldable pub release_helper : Js (Batching × W) (Unit {0})
  unfolding reset
  release_helper (s, w) = (do release s.batch; reset) (s, w)

  -- `timeout = setTimeout(…, opts.timeout)`
  set_timeout : Js (Batching × W) (Unit {0})
  set_timeout (s, w) = (
    ok tt,
    (
      record s {
        timeout = some s.next_timer;
        timers = s.next_timer ∷ s.timers;
        next_timer = suc s.next_timer;
      },
      w,
    ),
  )

  no_timeout : Option ℕ → Bool
  no_timeout none = true
  no_timeout (some id) = false

  after_push : Options → Js (Batching × W) (Unit {0})
  unfolding set_timeout no_timeout
  after_push opts (s, w) =
      if ltb 0 opts.batch && leb opts.batch (length s.batch)
      then release_helper (s, w)
      else if no_timeout s.timeout && ltb 0 opts.timeout
      then set_timeout (s, w)
      else (ok tt, (s, w))

  -- The aggregator's function of a message with this payload.
  unfoldable pub on_message : Options → Value → Js (Batching × W) (Unit {0})
  unfolding after_push release_helper
  on_message opts payload (s, w) = after_push opts (record s { batch = s.batch ++ payload ∷ [] }, w)

  fire : Bool → ℕ → Js (Batching × W) (Unit {0})
  fire false id (s, w) = (ok tt, (s, w))
  fire true id (s, w) = release_helper (record s { timers = remove_timer id s.timers }, w)

  is_pending : ℕ → List ℕ → Bool
  is_pending id [] = false
  is_pending id (t ∷ ts) = eqb t id || is_pending id ts

  -- The runtime fires the timer `id`, if it is pending.
  unfoldable pub on_timer : ℕ → Js (Batching × W) (Unit {0})
  unfolding fire is_pending remove_timer release_helper
  on_timer id (s, w) = fire (is_pending id s.timers) id (s, w)
