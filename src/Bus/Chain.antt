-- ===== src/Bus/Chain.antt =====
-- msgs.js: the transform of `chain`. Each handler of the chain handles what the one before it sent to
-- the channel that the chain gives it; that channel keeps the last message it was sent.

use msgs.Js.Value.{Value}
use msgs.Js.Effect.{Js, Outcome, ok, throw, out_of_fuel, pure, continue, for_each, ◌>>=◌}
use msgs.Base.{List, [], ◌∷◌, map, Option, none, some, refl, ◌≡◌}
use msgs.Bus.Handler.{Transform, as_value}
use msgs.Message.{Message}
use msgs.Bus.Handler.Errors.{next_error, next_output}

-- What `handle` of a handler does with a message, given the chain's channel: it may write the
-- chain's `message`, which is the first part of the state.
abbrev pub Link : Type 0 → Type 0
Link W = Message → Js (Option Message × W) (Unit {0})

message_or_undefined : Option Message → Value
message_or_undefined none = Value.undef
message_or_undefined (some m) = as_value m

module _ {W : Type 0} where
  -- One round of the loop; none is a handler that was not found.
  pass_on : Option (Link W) → Js (Option Message × W) (Unit {0})
  pass_on target (none, w) = (ok tt, (none, w))
  pass_on none (some m, w) = (throw Value.type_error, (none, w))
  pass_on (some run_link) (some m, w) = run_link m (none, w)

  finish : Outcome (Unit {0}) → Option Message × W → Outcome Value × W
  unfolding message_or_undefined
  finish (ok u) (m, w) = (ok (message_or_undefined m), w)
  finish (throw e) (m, w) = (throw e, w)
  finish out_of_fuel (m, w) = (out_of_fuel, w)

  -- `chain`, of the resolved handlers
  unfoldable pub chain : List (Option (Link W)) → Transform W
  unfolding pass_on finish for_each
  chain links m next_output next_error w =
      let (r, s) = for_each pass_on links (some m, w) in finish r s

  -- A handler that computes what it sends on, if anything: it writes the chain's message only when it
  -- sends, and leaves what stands there otherwise.
  stored : Option Message → Outcome (Option Message) → W → Outcome (Unit {0}) × (Option Message × W)
  stored before (ok (some m)) w = (ok tt, (some m, w))
  stored before (ok none) w = (ok tt, (before, w))
  stored before (throw e) w = (throw e, (before, w))
  stored before out_of_fuel w = (out_of_fuel, (before, w))

  unfoldable pub link : (Message → Js W (Option Message)) → Option (Link W)
  unfolding stored
  link f = some (λ m s. stored s.0 (f m s.1).0 (f m s.1).1)

  -- The functions one after the other, up to the first that sends nothing on.
  unfoldable pub through : List (Message → Js W (Option Message)) → Option Message → Js W Value
  unfolding message_or_undefined
  through [] o = pure (message_or_undefined o)
  through (f ∷ fs) none = pure Value.undef
  through (f ∷ fs) (some m) = f m >>= λ o. through fs o

  chain_done :
      (fs : List (Message → Js W (Option Message))) (w : W)
      → for_each pass_on (map link fs) (none, w) ≡ (ok tt, (none, w))
  unfolding for_each pass_on
  chain_done [] w = refl
  chain_done (f ∷ fs) w = chain_done fs w

  finish-through :
      (fs : List (Message → Js W (Option Message))) (o : Option Message) (w : W)
      → finish (for_each pass_on (map link fs) (o, w)).0 (for_each pass_on (map link fs) (o, w)).1
        ≡ through fs o w
  unfolding for_each pass_on finish through link
  finish-through [] o w = refl
  finish-through (f ∷ fs) none w = rw (chain_done fs w) refl
  finish-through (f ∷ fs) (some m) w = go (λ o' w'. finish-through fs o' w') (f m w).0 (f m w).1
    where
      go :
          ((o' : Option Message) (w' : W)
            → finish
                (for_each pass_on (map link fs) (o', w')).0
                (for_each pass_on (map link fs) (o', w')).1
              ≡ through fs o' w')
          → (r : Outcome (Option Message)) (w' : W)
          → (let s =
                continue
                  (λ _. for_each pass_on (map link fs))
                  (stored none r w').0
                  (stored none r w').1 in
              finish s.0 s.1 ≡ continue (through fs) r w')
      go rest (ok (some m')) w' = rest (some m') w'
      go rest (ok none) w' = rest none w'
      go rest (throw e) w' = refl
      go rest out_of_fuel w' = refl

  -- A chain of handlers that each compute what they send on, and that leave the message of the
  -- chain alone when they send nothing, is the composition of what they compute: each gets what the
  -- one before it sent, a handler that sends nothing ends the chain with `undefined`, and what a
  -- handler throws, the chain throws.
  pub chain-through :
      (fs : List (Message → Js W (Option Message))) (m : Message) (next_output next_error : Value)
      (w : W)
      → chain (map link fs) m next_output next_error w ≡ through fs (some m) w
  unfolding chain
  chain-through fs m next_output next_error w = finish-through fs (some m) w
