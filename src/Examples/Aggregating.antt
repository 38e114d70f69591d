-- ===== src/Examples/Aggregating.antt =====
-- Aggregators on concrete messages.

use msgs.Js.Object.{has, put, assign}
use msgs.Js.Decimal.{decimal}
use mathlib.Core.List.{flatten}
use msgs.Aggregators.Batching.Complete.{step}
use msgs.Base.{ap}
use msgs.Bus.Kinds.{splitter}
use msgs.Js.Effect.{ok, pure}
use msgs.Js.Value.{to_values}
use msgs.Message.{Factory}
use msgs.Js.Value.{Value}
use msgs.Base.{List, [], ◌∷◌, ℕ, ◌≡◌, ◌≢◌, refl, arith, ap, ◌+◌}
use msgs.Aggregators.Batching.{Options, initial}
use msgs.Aggregators.Batching.Complete.{
  Event, arrives, fires, run, all_of, run_complete, FitsSize, run-FitsSize,
}
use msgs.Aggregators.Batching.Timers.{Flushes, waiting_batch_is_released}
use msgs.Aggregators.Correlating.Arrivals
use msgs.Aggregators.Correlating.Arrivals.{
  Mixed, done, part, other, IsPart, IsOther, Released, parts-Released,
}
use msgs.Aggregators.Correlating.Sort.{Ascending}
use msgs.Bus.Kinds.{splitter}
use msgs.Js.Effect.{ok, pure}
use msgs.Js.Value.{to_values, to_string, truthy}
use msgs.Js.Object.{get}
use msgs.Js.Text.{Str, text}
use msgs.Bus.Kinds.{split_headers}
use msgs.Bus.Kinds.Splitting.{split-Released, split_by, keep, messages_of, IsPieceAt, HasId}
use msgs.Bus.Kinds.Splitter.{splitter-noted, noted, call_for}
use msgs.Base.{length, get_elem?, some}
use msgs.Message.{new_message, Message, Factory, header}
use mathlib.Core.List.{Permᴰ}
use msgs.Aggregators.Correlating.{sequence_number}

abbrev by_two : Options
by_two = record { batch = 2; timeout = 50 }

abbrev by_three : Options
by_three = record { batch = 3; timeout = 50 }

abbrev some_events : List Event
some_events =
    arrives (Value.num 1)
    ∷ arrives (Value.num 2)
    ∷ arrives (Value.num 3)
    ∷ fires 2
    ∷ arrives (Value.num 4)
    ∷ []

run_complete_example :
    all_of (run by_two some_events (initial, []))
    ≡ Value.num 1 ∷ Value.num 2 ∷ Value.num 3 ∷ Value.num 4 ∷ []
unfolding flatten
run_complete_example = run_complete by_two some_events (initial, [])

run-FitsSize_example : FitsSize by_two (run by_two some_events (initial, []))
run-FitsSize_example = run-FitsSize by_two some_events (initial, []) (omega arith, tt)

abbrev two_arrivals : List Event
two_arrivals = arrives (Value.num 1) ∷ arrives (Value.num 2) ∷ []

two_arrivals_wait : (run by_three two_arrivals (initial, [])).0.batch ≢ []
unfolding run step
two_arrivals_wait p = cc

waiting_batch_is_released_example :
    (t : ℕ) × Flushes by_three (run by_three two_arrivals (initial, [])) t
waiting_batch_is_released_example =
    waiting_batch_is_released by_three two_arrivals (omega arith) two_arrivals_wait

abbrev first_unit : Str → ℕ
first_unit [] = 0
first_unit (c ∷ s) = c

-- Part `n` of two parts of the message `x`.
abbrev part_of_x : ℕ → Message
part_of_x n = record {
  payload = Value.num (n + 10);
  headers =
      (text "sequenceNumber", Value.num n)
      ∷ (text "sequenceSize", Value.num 2)
      ∷ (text "correlationId", Value.str (text "x"))
      ∷ [];
}

abbrev stray : Message
stray = record { payload = Value.null; headers = (text "correlationId", Value.str (text "y")) ∷ [] }

part_of_x-IsPart : (n : ℕ) → IsPart (text "x") 2 (part_of_x n)
unfolding header get truthy
part_of_x-IsPart n = record { correlation = refl; named = refl; sequence_size = refl }

stray-IsOther : IsOther (text "x") stray
unfolding header get to_string
stray-IsOther p = omega (arith, ap first_unit p)

abbrev mixed_up :
    Mixed (text "x") 2 (part_of_x 1 ∷ stray ∷ part_of_x 0 ∷ []) (part_of_x 1 ∷ part_of_x 0 ∷ [])
mixed_up = part (part_of_x-IsPart 1) (other stray-IsOther (part (part_of_x-IsPart 0) done))

in_order : Ascending (part_of_x 0 ∷ part_of_x 1 ∷ [])
unfolding sequence_number header get
in_order = ((omega arith, tt), (tt, tt))

parts-Released_example :
    Released
      (text "x")
      2
      (part_of_x 0 ∷ part_of_x 1 ∷ [])
      (Arrivals.run (part_of_x 1 ∷ stray ∷ part_of_x 0 ∷ []) ([], []))
unfolding get
parts-Released_example =
    parts-Released (text "x") 2 [] [] mixed_up (Permᴰ.swap refl refl) in_order refl (omega arith) tt
      refl

-- A message of bus 0 that is split.
abbrev whole : Message
whole = record { payload = Value.null; headers = (text "id", Value.str (text "0-7")) ∷ [] }

abbrev factory : Factory
factory = record { bus_id = 0; next_message = 8 }

abbrev pieces : List Value
pieces = Value.num 10 ∷ Value.num 11 ∷ []

-- What the splitter sends for them.
abbrev first_part : Message
first_part = record {
  payload = Value.num 10;
  headers =
      (text "sequenceNumber", Value.num 0)
      ∷ (text "sequenceSize", Value.num 2)
      ∷ (text "correlationId", Value.str (text "0-7"))
      ∷ (text "id", Value.str (text "0-8"))
      ∷ [];
}

abbrev second_part : Message
second_part = record {
  payload = Value.num 11;
  headers =
      (text "sequenceNumber", Value.num 1)
      ∷ (text "sequenceSize", Value.num 2)
      ∷ (text "correlationId", Value.str (text "0-7"))
      ∷ (text "id", Value.str (text "0-9"))
      ∷ [];
}

whole_parts :
    split_by factory whole (Value.channel_ref 3) (to_values pieces)
    ≡ (Value.channel_ref 3, first_part) ∷ (Value.channel_ref 3, second_part) ∷ []
unfolding split_by splitter keep new_message split_headers header get has put assign decimal
whole_parts = refl

splitter-noted_example :
    let (r, sends) =
      splitter noted
        (λ m. pure (Value.array (to_values pieces)))
        (Value.channel_ref 3)
        whole
        Value.undef
        Value.undef
        [] in
    (r ≡ ok Value.undef)
    × (length sends ≡ 2)
    × ((k : ℕ) (piece : Value)
        → get_elem? pieces k ≡ some piece
        → get_elem? sends k ≡ some (call_for (Value.channel_ref 3) whole 2 k piece))
splitter-noted_example =
    splitter-noted (to_values pieces) (Value.channel_ref 3) Value.undef Value.undef whole

first_part-IsPart : IsPart (text "0-7") 2 first_part
unfolding header get truthy
first_part-IsPart = record { correlation = refl; named = refl; sequence_size = refl }

second_part-IsPart : IsPart (text "0-7") 2 second_part
unfolding header get truthy
second_part-IsPart = record { correlation = refl; named = refl; sequence_size = refl }

stray-IsOther_part : IsOther (text "0-7") stray
unfolding header get to_string
stray-IsOther_part p = omega (arith, ap first_unit p)

abbrev parts_mixed_up :
    Mixed (text "0-7") 2 (second_part ∷ stray ∷ first_part ∷ []) (second_part ∷ first_part ∷ [])
parts_mixed_up = part second_part-IsPart (other stray-IsOther_part (part first_part-IsPart done))

parts_permuted :
    Permᴰ
      (messages_of (split_by factory whole (Value.channel_ref 3) (to_values pieces)))
      (second_part ∷ first_part ∷ [])
parts_permuted = rw whole_parts (Permᴰ.swap refl refl)

whole-HasId : HasId whole (text "0-7")
unfolding header get truthy
whole-HasId = (refl, refl)

split-Released_example :
    (length (messages_of (split_by factory whole (Value.channel_ref 3) (to_values pieces))) ≡ 2)
    × ((k : ℕ) (piece : Value)
        → get_elem? pieces k ≡ some piece
        → IsPieceAt
            (split_by factory whole (Value.channel_ref 3) (to_values pieces))
            (Value.channel_ref 3)
            k
            piece)
    × Released
        (text "0-7")
        2
        (messages_of (split_by factory whole (Value.channel_ref 3) (to_values pieces)))
        (Arrivals.run (second_part ∷ stray ∷ first_part ∷ []) ([], []))
unfolding get
split-Released_example =
    split-Released factory whole (text "0-7") (Value.channel_ref 3) (to_values pieces) [] []
      whole-HasId (omega arith) parts_mixed_up parts_permuted tt refl
