-- ===== src/Dispatchers/Pollable.antt =====
-- channels/dispatchers/pollable.js: messages wait in a queue until they are received.
pub mod Fifo
use msgs.Js.Value
use msgs.Base.{Bool, List, Option, [], false, length, none, some, ◌++◌, ◌∷◌}
use msgs.Js.Effect.{Js, catching, ok, pure, ◌>>=◌, ◌>>◌}
use msgs.Js.Value.{Value, truthy}

-- A queuing strategy: `push` returns a value, which is true if the message is stored, and `shift`
-- returns the next message. Either may throw.
pub record Queue (Q M : Type 0) : Type 0 where
  pub push : M → Js Q Value
  pub shift : Js Q (Option M)

module _ {Q M : Type 0} (queue : Queue Q M) where
  -- `dispatcher.dispatch`
  unfoldable pub dispatch : M → Js Q Bool
  dispatch message = catching (do v ← queue.push message; pure (truthy v)) (λ _. pure false)

  unfoldable pub receive : Js Q (Option M)
  receive = queue.shift

-- The default queue: an array, with `push` at its end and `shift` from its front.
array_push : {M : Type 0} → M → Js (List M) Value
array_push m ms = (ok (Value.num (length (ms ++ m ∷ []))), ms ++ m ∷ [])

array_shift : {M : Type 0} → Js (List M) (Option M)
array_shift [] = (ok none, [])
array_shift (m ∷ ms) = (ok (some m), ms)

abbrev pub array_queue : {M : Type 0} → Queue (List M) M
unfolding array_push array_shift
array_queue = record { push = array_push; shift = array_shift }
