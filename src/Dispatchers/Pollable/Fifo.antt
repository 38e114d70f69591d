-- ===== src/Dispatchers/Pollable/Fifo.antt =====
-- channels/dispatchers/pollable.js with its default queue: the order of messages.
use msgs.Dispatchers.Pollable
use msgs.Dispatchers.Pollable.{array_push, array_shift, array_queue}
use msgs.Base.{List, Option, [], ap, append-nil, append_assoc, some, sym, ◌++◌, ◌∙◌, ◌∷◌, ◌≡◌}
use msgs.Js.Effect.{Outcome, ok}

-- What a client does with the channel.
pub data Use (M : Type 0) : Type 0 where
  sends : M → Use M
  receives : Use M

module _ {M : Type 0} where
  abbrev pub got : Outcome (Option M) → List M
  got (ok (some m)) = m ∷ []
  got _ = []

  -- The queue after the calls, oldest first, and the messages that they received.
  unfoldable pub run_uses : List (Use M) → List M → List M × List M
  unfolding Pollable.dispatch Pollable.receive array_push array_shift
  run_uses [] q = (q, [])
  run_uses (sends m ∷ us) q = run_uses us (Pollable.dispatch array_queue m q).1
  run_uses (receives ∷ us) q =
      let (r, q') = Pollable.receive array_queue q in
      let (q'', ms) = run_uses us q' in (q'', got r ++ ms)

  abbrev pub sent : List (Use M) → List M
  sent [] = []
  sent (sends m ∷ us) = m ∷ sent us
  sent (receives ∷ us) = sent us

  -- Whatever the order of sends and receives, what is received and then what is left are all the
  -- messages that were waiting or sent, in that order: none is lost, doubled or overtaken.
  pub run_uses-fifo :
      (us : List (Use M)) (q : List M) → (run_uses us q).1 ++ (run_uses us q).0 ≡ q ++ sent us
  unfolding run_uses
  run_uses-fifo [] q = sym (append-nil q)
  run_uses-fifo (sends m ∷ us) q =
      run_uses-fifo us (q ++ m ∷ []) ∙ append_assoc q (m ∷ []) (sent us)
  run_uses-fifo (receives ∷ us) [] = run_uses-fifo us []
  run_uses-fifo (receives ∷ us) (m ∷ q) = ap (◌∷◌ m) (run_uses-fifo us q)
