-- ===== src/Examples/Dispatching.antt =====
-- Dispatchers on concrete handlers, which are numbers here.

use msgs.Dispatchers.Broadcast
use msgs.Dispatchers.Subscribable.{Handlers}
use msgs.Dispatchers.Subscribable.Histories.{
  EndsAs, last_call, run_calls, run_calls_history, subscribes, unsubscribes, contains,
}
use msgs.Dispatchers.Broadcast.Delivery.{dispatch-all, errors_of_all, after_all}
use msgs.Dispatchers.Unicast.RoundRobin.{
  last_after, round_robin_fair, naive_last, naive_round_robin-never,
}
use msgs.Dispatchers.Unicast.{naive_round_robin}
use msgs.Dispatchers.Exchange
use msgs.Dispatchers.Exchange.{subscribable_topics, literal_matcher}
use msgs.Dispatchers.Exchange.Topics.{
  Becomes, IsTidy, members, subscribe-members, unsubscribe-members, added, IsLive,
}
use msgs.Dispatchers.Exchange.Literal.{dispatch-literal}
use msgs.Dispatchers.Subscribable.Histories.{Call}
use msgs.Dispatchers.Pollable.Fifo.{Use, run_uses, run_uses-fifo, sends, receives}
use msgs.Dispatchers.Subscribable.Histories.{without}
use msgs.Base.{
  Bool, List, [], ◌∷◌, ◌++◌, ℕ, none, some, false, ◌≡◌, refl, if◌then◌else◌, eqb, arith, nat_eq,
  get_elem?, ◌%◌, ◌==◌,
}
use msgs.Js.Effect.{Js, ok, throw, pure}
use msgs.Js.Object.{has, Object, get}
use msgs.Js.Text.{Str, text, str_eq}
use msgs.Js.Value.{Value, to_values}

abbrev three : List ℕ
three = 7 ∷ 8 ∷ 9 ∷ []

abbrev some_uses : List (Use ℕ)
some_uses = sends 4 ∷ receives ∷ receives ∷ sends 6 ∷ []

abbrev some_calls : List (Call ℕ)
some_calls = subscribes 1 ∷ subscribes 2 ∷ subscribes 1 ∷ unsubscribes 1 ∷ []

-- A handler that notes its number; handler 2 then throws.
abbrev noisy : ℕ → Js (List ℕ) (Unit {0})
noisy h w = (if eqb h 2 then throw (Value.num h) else ok tt, w ++ h ∷ [])

dispatch-all_example :
    Broadcast.dispatch noisy (some (1 ∷ 2 ∷ 3 ∷ [])) []
    ≡ (throw (Value.array (to_values (Value.num 2 ∷ []))), 1 ∷ 2 ∷ 3 ∷ [])
unfolding after_all errors_of_all
dispatch-all_example =
    dispatch-all noisy 1 (2 ∷ 3 ∷ []) [] ((λ p. cc), ((λ p. cc), ((λ p. cc), tt)))

run_calls_history_example :
    EndsAs {H = ℕ} (λ k. last_call k false some_calls) (run_calls (some []) some_calls)
run_calls_history_example = run_calls_history some_calls

round_robin_fair_example : last_after three 5 ≡ get_elem? three (4 % 3)
unfolding contains
round_robin_fair_example = round_robin_fair three 4 (refl, (refl, (refl, tt))) (omega arith)

naive_round_robin-never_example : (naive_round_robin (naive_last three 3) three).0 ≡ none
naive_round_robin-never_example = naive_round_robin-never three 3

run_uses-fifo_example :
    (run_uses some_uses (3 ∷ [])).1 ++ (run_uses some_uses (3 ∷ [])).0 ≡ 3 ∷ 4 ∷ 6 ∷ []
run_uses-fifo_example = run_uses-fifo some_uses (3 ∷ [])

-- Handlers 1 and 2 are subscribed to the topic `a`.
abbrev two_handlers : Object (Handlers ℕ)
two_handlers = (text "a", some (1 ∷ 2 ∷ [])) ∷ []

two_handlers-IsLive : (t : Str) (d : Handlers ℕ) → get two_handlers t ≡ some d → IsLive d
unfolding get contains
two_handlers-IsLive t none p = ground (arith, p)
two_handlers-IsLive t (some []) p = ground (arith, p)
two_handlers-IsLive t (some (h ∷ hs)) p = ground (arith, p)

two_handlers-IsTidy : IsTidy two_handlers
unfolding get has
two_handlers-IsTidy = record { distinct = (refl, tt); live = two_handlers-IsLive }

subscribe-members_example :
    Becomes two_handlers
      (λ j.
        if text "a" == j then added (members two_handlers (text "a")) 3 else members two_handlers j)
      (Exchange.subscribe subscribable_topics (text "a") 3 (some two_handlers))
subscribe-members_example = subscribe-members two_handlers (text "a") 3 two_handlers-IsTidy

unsubscribe-members_example :
    Becomes two_handlers
      (λ j.
        if text "a" == j
        then without (members two_handlers (text "a")) 1
        else members two_handlers j)
      (Exchange.unsubscribe subscribable_topics (text "a") 1 (some two_handlers))
unsubscribe-members_example = unsubscribe-members two_handlers (text "a") 1 two_handlers-IsTidy

-- A topic's dispatcher that throws its number.
abbrev failing : ℕ → Js (Object ℕ) Bool
failing d w = (throw (Value.num d), w)

abbrev two_topics : Object ℕ
two_topics = (text "a", 5) ∷ (text "b", 6) ∷ []

dispatch-literal_example :
    Exchange.dispatch {W = Object ℕ} some
      (λ t topic. pure (literal_matcher t topic))
      failing
      (Value.str (text "b"))
      two_topics
    ≡ (throw (Value.array (to_values (Value.num 6 ∷ []))), two_topics)
unfolding get has
dispatch-literal_example =
    dispatch-literal (λ w. some w) failing two_topics (text "b") two_topics refl (refl, (refl, tt))
