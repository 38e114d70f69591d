-- ===== src/Examples/Chaining.antt =====
-- A chain of two handlers, and one that stops after the first.

use msgs.Js.Value.{Value}
use msgs.Js.Effect.{Js, ok}
use msgs.Bus.Chain.{chain, chain-through, link, through}
use msgs.Base.{[], ◌∷◌, map, ◌≡◌, refl, Option, none, some, ℕ, ◌+◌}
use msgs.Message.{Message}
use msgs.Bus.Handler.{as_value}

abbrev carrying : ℕ → Message
carrying n = record { payload = Value.num n; headers = [] }

-- Sends on a message with the number of messages so far, which it counts.
abbrev counted : Message → Js ℕ (Option Message)
counted m n = (ok (some (carrying n)), n + 1)

abbrev dropped : Message → Js ℕ (Option Message)
dropped m n = (ok none, n + 1)

chain-through_example :
    chain (map link (counted ∷ counted ∷ [])) (carrying 0) Value.undef Value.undef 5
    ≡ (ok (as_value (carrying 6)), 7)
unfolding through
chain-through_example =
    chain-through (counted ∷ counted ∷ []) (carrying 0) Value.undef Value.undef 5

chain_stops :
    chain (map link (dropped ∷ counted ∷ [])) (carrying 0) Value.undef Value.undef 5
    ≡ (ok Value.undef, 6)
unfolding chain link
chain_stops = refl
