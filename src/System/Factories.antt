-- ===== src/System/Factories.antt =====
-- msgs.js, `_handler`, `forward`, `channel`, the constructor of `MessageBus` and `bus`; channels/direct.js,
-- channels/pubsub.js, channels/queue.js and channels/exchange.js. `n` is the fuel of the resolution of
-- names.
use msgs.Base.{ℕ, Option, none, some, [], ◌∷◌, ◌++◌, length, if◌then◌else◌}
use msgs.Js.Text.{Str, text}
use msgs.Js.Value.{Value, truthy}
use msgs.Js.Effect.{ok, pure, ◌>>=◌, ◌>>◌}
use msgs.Bus.Names.{created, handler}
use msgs.Dispatchers.Subscribable.{subscribable_dispatcher}
use msgs.System.{
  Run, broadcast, unicast, direct, pollable, exchange, Subscriber, by_ref, Matcher, Kind,
  forwarding, add_handler, alias_if_named, new_channel, read_bus, write_bus,
}
use msgs.System.Sending.{Services}
use msgs.System.Subscribing.{subscribe, subscribe_channel}

-- `opts.matcher || exchangeDispatcher.matchers.literal`
abbrev pub or_literal : Option Matcher → Matcher
or_literal none = Matcher.literal
or_literal (some m) = m

module _ {W : Type 0} where
  -- `channel`, of any load balancer
  unfoldable pub unicast_channel : ℕ → ℕ → Str → Run W ℕ
  unfolding new_channel
  unicast_channel n b name = new_channel n b name (unicast subscribable_dispatcher) (text "default")

  unfoldable pub pubsub_channel : ℕ → ℕ → Str → Run W ℕ
  unfolding new_channel
  pubsub_channel n b name = new_channel n b name (broadcast subscribable_dispatcher) (text "pubsub")

  unfoldable pub direct_channel : ℕ → ℕ → Str → Subscriber → Run W ℕ
  unfolding new_channel
  direct_channel n b name h = new_channel n b name (direct h) (text "direct")

  -- `queueChannel`, of the default queue
  unfoldable pub queue_channel : ℕ → ℕ → Str → Run W ℕ
  unfolding new_channel
  queue_channel n b name = new_channel n b name (pollable []) (text "queue")

  -- `exchangeChannel`, of the two matchers of exchange.js and the default dispatcher of topics
  unfoldable pub exchange_channel : ℕ → ℕ → Str → Option Matcher → Run W ℕ
  unfolding new_channel
  exchange_channel n b name matcher =
      new_channel n b name (exchange (or_literal matcher) (some [])) (text "exchange")

  unfoldable pub topic_exchange_channel : ℕ → ℕ → Str → Run W ℕ
  unfolding new_channel
  topic_exchange_channel n b name =
      new_channel n b name (exchange Matcher.topical (some [])) (text "topic-exchange")

  -- The names of a new bus.
  abbrev pub add_names : Option ℕ → Run W ℕ
  add_names parent (s, w) = (
    ok (length s.buses),
    (record s { names = s.names ++ (record { parent = parent; components = [] }) ∷ [] }, w),
  )

  abbrev pub add_bus : ℕ → ℕ → ℕ → Run W (Unit {0})
  add_bus b dead_letter invalid_message (s, w) = (
    ok tt,
    (
      record s {
        buses =
            s.buses
            ++ (record {
              children = [];
              dead_letter_channel = dead_letter;
              invalid_message_channel = invalid_message;
              factory = record { bus_id = b; next_message = 0 };
            })
              ∷ [];
      },
      w,
    ),
  )

module _ {W : Type 0} (services : Services W) where
  abbrev subscribe_if_given : ℕ → ℕ → Value → ℕ → Run W (Unit {0})
  subscribe_if_given n b input h =
      if truthy input then subscribe services n b input (by_ref h) else pure tt

  -- `_handler`
  unfoldable pub new_handler : ℕ → ℕ → Str → Kind → Value → Value → Value → Run W ℕ
  unfolding subscribe
  new_handler n b name kind output input error = do
    h ← add_handler (record { bus = b; kind = kind; output = output; error = error })
    alias_if_named n b name (handler h)
    subscribe_if_given n b input h
    pure h

  -- `this.forward(from, to)`; `from` may be undefined
  unfoldable pub forward : ℕ → ℕ → Value → Value → Run W ℕ
  unfolding new_handler
  forward n b from to = new_handler n b [] forwarding to from Value.undef

  -- `channel.subscribe(this.forward(parentChannel))`
  unfoldable pub share : ℕ → ℕ → ℕ → ℕ → Run W (Unit {0})
  unfolding forward subscribe_channel
  share n b c parent_channel = do
    h ← forward n b Value.undef (Value.channel_ref parent_channel)
    subscribe_channel services (created c) (by_ref h)

  unfoldable pub share_with_parent : ℕ → ℕ → Option ℕ → ℕ → ℕ → Run W (Unit {0})
  unfolding share
  share_with_parent n b none dead_letter invalid_message = pure tt
  share_with_parent n b (some p) dead_letter invalid_message = do
    parent ← read_bus p
    share n b dead_letter parent.dead_letter_channel
    share n b invalid_message parent.invalid_message_channel

  -- `new MessageBus(parent)`
  unfoldable pub construct_bus : ℕ → Option ℕ → Run W ℕ
  unfolding share_with_parent new_channel
  construct_bus n parent = do
    b ← add_names parent
    dead_letter ← new_channel n b (text "deadLetterChannel") (broadcast subscribable_dispatcher) []
    invalid_message ←
        new_channel n b (text "invalidMessageChannel") (broadcast subscribable_dispatcher) []
    add_bus b dead_letter invalid_message
    share_with_parent n b parent dead_letter invalid_message
    pure b

  -- `children.push(messageBus)`
  abbrev push_child : ℕ → ℕ → Run W (Unit {0})
  push_child p b = do
    parent ← read_bus p
    write_bus p (record parent { children = parent.children ++ b ∷ [] })

  -- `bus`, with what `config` does
  unfoldable pub new_bus : ℕ → ℕ → (ℕ → Run W (Unit {0})) → Run W ℕ
  unfolding construct_bus
  new_bus n p config = do b ← construct_bus n (some p); push_child p b; config b; pure b
