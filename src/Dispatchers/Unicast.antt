-- ===== src/Dispatchers/Unicast.antt =====
-- channels/dispatchers/unicast.js: one handler receives each message, chosen by a load balancer.
-- A balancer is a function of the listed handlers, with the state that its closure keeps.
pub mod RoundRobin
pub mod Preserves
use msgs.Js.Value
use msgs.Js.Effect.{Js, lift, pure, ◌>>=◌, ◌>>◌}
use msgs.Base.{
  Bool, Eq, List, Option, [], false, get_elem?, length, nat_eq, none, some, suc, true, ℕ, ◌%◌, ◌+◌,
  ◌∷◌,
}
use msgs.Dispatchers.Subscribable.{Handlers, handlers_copy, index_of}
use msgs.Js.Text.{str_eq}

module _ {ℓ κ} {W : Type ℓ} {H : Type κ} (deliver : Option H → Js W (Unit {0}))
    (load_balancer : List H → Js W (Option H)) where
  hand_to_one : List H → Js W Bool
  hand_to_one [] = pure false
  hand_to_one (h ∷ hs) = do handler ← load_balancer (h ∷ hs); deliver handler; pure true

  -- `dispatcher.dispatch`; `deliver` is `handlerResolver(handler).handle(message)`, also of the
  -- `undefined` that a balancer may return
  unfoldable pub dispatch : Handlers H → Js W Bool
  unfolding hand_to_one handlers_copy
  dispatch handlers = do hs ← lift (handlers_copy handlers); hand_to_one hs

-- The balancer of a draw: `index n` is `Math.floor(Math.random() * n)` in the arithmetic of the runtime.
unfoldable pub random {ℓ} : {H : Type ℓ} → (ℕ → ℕ) → List H → Option H
random index handlers = get_elem? handlers (index (length handlers))

-- `last`, which is undefined at first
abbrev pub Last {ℓ} : Type ℓ → Type ℓ
Last H = Option H

-- `handlers.indexOf(last) + 1`
index_after : Option ℕ → ℕ
index_after none = 0
index_after (some i) = suc i

module _ {ℓ} {H : Type ℓ} ⦃e : Eq H⦄ where
  find_last : List H → Last H → Option ℕ
  unfolding index_of
  find_last handlers none = none
  find_last handlers (some h) = index_of handlers h

  -- The chosen handler is also the new `last`.
  unfoldable pub round_robin : Last H → List H → Option H
  unfolding index_after find_last
  round_robin last handlers =
      get_elem? handlers (index_after (find_last handlers last) % length handlers)

-- A JavaScript number that is a natural number or NaN, and `undefined + 1`, which is NaN.
pub data Number : Type 0 where
  nan : Number
  int : ℕ → Number

plus_one : Option Number → Number
plus_one none = nan
plus_one (some nan) = nan
plus_one (some (int n)) = int (n + 1)

modulo : Number → ℕ → Number
modulo nan m = nan
modulo (int n) m = int (n % m)

element {ℓ} : {H : Type ℓ} → List H → Number → Option H
element handlers nan = none
element handlers (int i) = get_elem? handlers i

-- `naiveRoundRobin`: what it returns, and the new `last`
unfoldable pub naive_round_robin {ℓ} :
    {H : Type ℓ} → Option Number → List H → Option H × Option Number
unfolding plus_one modulo element
naive_round_robin last handlers =
    let i = modulo (plus_one last) (length handlers) in (element handlers i, some i)
