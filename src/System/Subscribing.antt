-- ===== src/System/Subscribing.antt =====
-- msgs.js: `subscribe`, `unsubscribe`, `tap` and `untap` of a bus, also through a channel that
-- `topicizeChannel` made.
use msgs.Base.{List, Option, none, some, ℕ, nat_eq}
use msgs.Js.Text.{Str, text}
use msgs.Js.Value.{Value}
use msgs.Js.Effect.{
  Outcome, ok, throw, out_of_fuel, pure, throws, lift, get_state, or_type_error, ◌>>=◌, ◌>>◌,
}
use msgs.Bus.Handler.{as_value}
use msgs.Bus.Names.{Channel, created, topicized, resolve_channel}
use msgs.Bus.Taps
use msgs.Bus.Taps.{Taps}
use msgs.Dispatchers.Pollable
use msgs.Dispatchers.Pollable.{array_queue}
use msgs.Dispatchers.Subscribable
use msgs.Dispatchers.Subscribable.{Handlers}
use msgs.Dispatchers.Exchange
use msgs.Dispatchers.Exchange.{Topics, subscribable_topics}
use msgs.System.{
  Run, ChannelState, Dispatcher, noop, broadcast, unicast, exchange, outer, pollable, Subscriber,
  by_name, by_ref, missing, subscriber_eq, Matcher, component_of, read_channel, write_channel,
}
use msgs.Message.{Message}
use msgs.System.Sending.{Services}

-- The channel whose method is called in the end, and the two arguments that it reads: each topic
-- goes before the first argument.
unfoldable pub method_through : Channel → Subscriber × Subscriber → ℕ × Subscriber × Subscriber
method_through (created c) (first, second) = (c, first, second)
method_through (topicized topic ch) (first, second) = method_through ch (by_name topic, first)

abbrev pub message_value : Option Message → Value
message_value none = Value.undef
message_value (some m) = as_value m

-- The topic that an exchange reads of its first argument.
abbrev pub topic_key : Subscriber → Str
topic_key (by_name s) = s
topic_key (by_ref h) = text "[object Object]"
topic_key missing = text "undefined"

module _ {W : Type 0} where
  abbrev pub write_dispatcher : ℕ → ChannelState → Dispatcher → Run W (Unit {0})
  write_dispatcher c state d = write_channel c (record state { dispatcher = d })

  -- A list of handlers that a call changed, written back.
  abbrev pub write_handlers :
      ℕ
      → ChannelState
      → (Handlers Subscriber → Dispatcher)
      → Outcome (Handlers Subscriber)
      → Run W (Unit {0})
  write_handlers c state make (ok hs) = write_dispatcher c state (make hs)
  write_handlers c state make (throw e) = throws e
  write_handlers c state make out_of_fuel = lift out_of_fuel

  abbrev pub write_topics :
      ℕ
      → ChannelState
      → Matcher
      → Outcome (Unit {0}) × Topics (Handlers Subscriber)
      → Run W (Unit {0})
  write_topics c state m (r, ts) = do write_dispatcher c state (exchange m ts); lift r

  abbrev pub write_taps : ℕ → ChannelState → Outcome (Taps Subscriber) → Run W (Unit {0})
  write_taps c state (ok taps) = write_channel c (record state { taps = taps })
  write_taps c state (throw e) = throws e
  write_taps c state out_of_fuel = lift out_of_fuel

  -- `noopChannel` has neither `tap` nor `untap`.
  unfoldable pub tap_by : ℕ → ChannelState → Dispatcher → Subscriber → Run W (Unit {0})
  tap_by c state noop h = throws Value.type_error
  tap_by c state _ h = write_taps c state (Taps.tap state.taps h)

  unfoldable pub untap_by : ℕ → ChannelState → Dispatcher → Subscriber → Run W (Unit {0})
  untap_by c state noop h = throws Value.type_error
  untap_by c state _ h = write_taps c state (Taps.untap state.taps h)

  -- `this.resolveChannel(channel)`, of which a method is called next
  unfoldable pub resolve : ℕ → ℕ → Value → Run W Channel
  resolve n b from = do
    target ← lift (component_of from)
    s ← get_state
    found ← lift (resolve_channel n s.0.names b target)
    or_type_error found

  unfoldable pub tap : ℕ → ℕ → Value → Subscriber → Run W (Unit {0})
  unfolding tap_by resolve method_through
  tap n b to h = do
    ch ← resolve n b to
    state ← read_channel (method_through ch (h, missing)).0
    tap_by (method_through ch (h, missing)).0 state state.dispatcher h

  unfoldable pub untap : ℕ → ℕ → Value → Subscriber → Run W (Unit {0})
  unfolding untap_by resolve method_through
  untap n b to h = do
    ch ← resolve n b to
    state ← read_channel (method_through ch (h, missing)).0
    untap_by (method_through ch (h, missing)).0 state state.dispatcher h

module _ {W : Type 0} where
  -- The message that `queue.shift()` returned, or undefined, and the queue that it leaves.
  abbrev pub shifted : ℕ → ChannelState → Outcome (Option Message) × List Message → Run W Value
  shifted c state (r, queue) = do
    write_dispatcher c state (pollable queue)
    message ← lift r
    pure (message_value message)

  -- `channel.receive`, which the channels of queues have
  unfoldable pub receive_by : ℕ → ChannelState → Dispatcher → Run W Value
  receive_by c state (pollable queue) = shifted c state (Pollable.receive array_queue queue)
  receive_by c state _ = throws Value.type_error

  -- channels/queue.js, `receive`
  unfoldable pub receive : ℕ → ℕ → Value → Run W Value
  unfolding receive_by resolve method_through
  receive n b target = do
    ch ← resolve n b target
    state ← read_channel (method_through ch (missing, missing)).0
    receive_by (method_through ch (missing, missing)).0 state state.dispatcher

module _ {W : Type 0} (services : Services W) where
  open services use {subscribe_outer, unsubscribe_outer}

  -- `channel.subscribe`, by the channel's dispatcher
  unfoldable pub subscribe_by :
      ℕ → ChannelState → Dispatcher → Subscriber → Subscriber → Run W (Unit {0})
  subscribe_by c state (broadcast hs) h k =
      write_handlers c state broadcast (Subscribable.subscribe hs h)
  subscribe_by c state (unicast hs) h k =
      write_handlers c state unicast (Subscribable.subscribe hs h)
  subscribe_by c state (exchange m ts) h k =
      write_topics c state m (Exchange.subscribe subscribable_topics (topic_key h) k ts)
  subscribe_by c state (outer d) h k = subscribe_outer d h k
  subscribe_by c state _ h k = throws Value.type_error

  unfoldable pub unsubscribe_by :
      ℕ → ChannelState → Dispatcher → Subscriber → Subscriber → Run W (Unit {0})
  unsubscribe_by c state (broadcast hs) h k =
      write_handlers c state broadcast (Subscribable.unsubscribe hs h)
  unsubscribe_by c state (unicast hs) h k =
      write_handlers c state unicast (Subscribable.unsubscribe hs h)
  unsubscribe_by c state (exchange m ts) h k =
      write_topics c state m (Exchange.unsubscribe subscribable_topics (topic_key h) k ts)
  unsubscribe_by c state (outer d) h k = unsubscribe_outer d h k
  unsubscribe_by c state _ h k = throws Value.type_error

  -- `channel.subscribe(handler)` of a channel that has been resolved
  unfoldable pub subscribe_channel : Channel → Subscriber → Run W (Unit {0})
  unfolding subscribe_by method_through
  subscribe_channel ch h = do
    state ← read_channel (method_through ch (h, missing)).0
    subscribe_by (method_through ch (h, missing)).0 state state.dispatcher
        (method_through ch (h, missing)).1 (method_through ch (h, missing)).2

  unfoldable pub unsubscribe_channel : Channel → Subscriber → Run W (Unit {0})
  unfolding unsubscribe_by method_through
  unsubscribe_channel ch h = do
    state ← read_channel (method_through ch (h, missing)).0
    unsubscribe_by (method_through ch (h, missing)).0 state state.dispatcher
        (method_through ch (h, missing)).1 (method_through ch (h, missing)).2

  unfoldable pub subscribe : ℕ → ℕ → Value → Subscriber → Run W (Unit {0})
  unfolding resolve subscribe_channel
  subscribe n b from to = do ch ← resolve n b from; subscribe_channel ch to

  unfoldable pub unsubscribe : ℕ → ℕ → Value → Subscriber → Run W (Unit {0})
  unfolding resolve unsubscribe_channel
  unsubscribe n b from to = do ch ← resolve n b from; unsubscribe_channel ch to
