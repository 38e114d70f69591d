-- ===== src/Adapters.antt =====
-- adapters: how other libraries' objects are tied to channels. An object's events call listeners; what
-- registers a listener, and what the adapters call of the object, are parameters.
pub mod Sockets
pub mod Redis
pub mod Events
pub mod Backbone
pub mod Numbers
pub mod Closing
use msgs.Js.Text.{Str}
use msgs.Base.{List, [], if◌then◌else◌, ℕ, ◌∷◌}
use msgs.Js.Effect.{Js, Outcome, lift, ok, out_of_fuel, pure, throw, throws, ◌>>=◌, ◌>>◌}
use msgs.Bus.Handler.{Send}
use msgs.Bus.Kinds.{inbound_adapter}
use msgs.Js.Value.{Value, truthy}

-- `opts`
pub record Options : Type 0 where
  pub input : Value
  pub output : Value
  pub error : Value

-- What is registered: the function of an inbound adapter, with how it reads its arguments, or the
-- function that takes a handler from its channel.
pub data Listener (H : Type 0) : Type 0 where
  sending : Value → (List Value → Outcome Value) → Listener H
  leaving : Value → H → Listener H

-- What the adapters call: the bus's `_handler`, before it subscribes, `subscribe` and `unsubscribe`,
-- and the object's `addEventListener` or `on`.
pub record Attachment (H W : Type 0) : Type 0 where
  pub new_handler : (Value → Js W Value) → Js W H
  pub subscribe : Value → H → Js W (Unit {0})
  pub unsubscribe : Value → H → Js W (Unit {0})
  pub listen : Str → Listener H → Js W (Unit {0})

-- `undefined` for an argument that is not given
abbrev pub first_argument : List Value → Value
first_argument [] = Value.undef
first_argument (v ∷ vs) = v

-- `if (opts.…) { … }`
abbrev pub when_given : {W : Type 0} → Value → Js W (Unit {0}) → Js W (Unit {0})
when_given v m = if truthy v then m else pure tt

module _ {H W : Type 0} (attachment : Attachment H W) where
  open attachment use {new_handler, subscribe, unsubscribe, listen}

  -- `outboundAdapter(name, func, opts)`: the handler of a function, subscribed to its input.
  unfoldable pub outbound : (Value → Js W Value) → Value → Js W H
  outbound func input = do
    h ← new_handler func
    (if truthy input then subscribe input h else pure tt)
    pure h

  -- What a listener does on its arguments, and its counter afterwards.
  unfoldable pub run_listener : Send W → Listener H → ℕ → List Value → Js W (Unit {0}) × ℕ
  run_listener send (sending output read) counter args = elim (read args) [
    | ok v ↦ inbound_adapter send output counter v
    | throw e ↦ (throws e, counter)
    | out_of_fuel ↦ (lift out_of_fuel, counter)
  ]
  run_listener send (leaving input h) counter args = (unsubscribe input h, counter)
