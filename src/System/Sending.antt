-- ===== src/System/Sending.antt =====
-- msgs.js: `send` of a bus, through the names, the channels, their dispatchers and the handlers. The
-- fuel counts how deep handlers send.
use msgs.Base.{ℕ, zero, suc, Bool, true, Option, none, some, List, get_elem?, eqb}
use msgs.Js.Text.{Str, text}
use msgs.Js.Value.{Value}
use msgs.Js.Effect.{Outcome, ok, pure, lift, get_state, or_type_error, out_of_fuel, ◌>>=◌, ◌>>◌}
use msgs.Message.{Message, header}
use msgs.Bus.Channel
use msgs.Bus.Channel.{Wiring}
use msgs.Bus.Handler.{Send, Transform, handle, as_value}
use msgs.Bus.Kinds.{forward}
use msgs.Bus.Names.{Component, named, handler, resolve_channel, resolve_handler, send_through}
use msgs.Bus.Taps.{Taps}
use msgs.Dispatchers.Broadcast
use msgs.Dispatchers.Unicast
use msgs.Dispatchers.Direct
use msgs.Dispatchers.Pollable
use msgs.Dispatchers.Exchange
use msgs.Dispatchers.Exchange.{Topics, literal_matcher}
use msgs.Dispatchers.Exchange.Topical.{RegExp, topical_matcher}
use msgs.Dispatchers.Pollable.{array_queue}
use msgs.Dispatchers.Subscribable.{Handlers}
use msgs.System.{
  System, Run, ChannelState, Dispatcher, noop, broadcast, unicast, direct, pollable, exchange,
  outer, Subscriber, by_name, by_ref, missing, Matcher, Kind, forwarding, transforming,
  component_of, read_bus, read_channel, read_handler, write_channel, make_message,
}

-- What is not of the bus: the transforms of the handlers other than `forward`, the choices of load
-- balancers, the dispatchers made elsewhere, and `RegExp` on other syntax than the topical matcher's.
-- All but the last may call the bus again.
pub record Services (W : Type 0) : Type 0 where
  pub transform : ℕ → Transform (System × W)
  pub choose : ℕ → List Subscriber → Run W (Option Subscriber)
  pub dispatch_outer : ℕ → Message → Run W Bool
  pub subscribe_outer : ℕ → Subscriber → Subscriber → Run W (Unit {0})
  pub unsubscribe_outer : ℕ → Subscriber → Subscriber → Run W (Unit {0})
  pub destroy_outer : ℕ → Run W (Unit {0})
  pub reg_exp : Str → Outcome RegExp

-- What `resolveHandler` is given.
abbrev pub subscriber_component : Subscriber → Component
subscriber_component (by_name s) = named s
subscriber_component (by_ref h) = handler h
subscriber_component missing = named (text "undefined")

abbrev pub or_missing : Option Subscriber → Subscriber
or_missing none = missing
or_missing (some s) = s

module _ {W : Type 0} (services : Services W) where
  open services use {transform, choose, dispatch_outer, reg_exp}

  unfoldable pub kind_transform : Kind → Transform (System × W)
  kind_transform forwarding = forward (λ c p h. pure tt)
  kind_transform (transforming t) = transform t

  -- `bus.resolveHandler(handler).handle(message)`; `send` is that of each bus
  unfoldable pub deliver : (ℕ → Send (System × W)) → ℕ → ℕ → Message → Subscriber → Run W (Unit {0})
  unfolding kind_transform
  deliver send n b m subscriber = do
    s ← get_state
    found ← lift (resolve_handler (suc n) s.0.names b (subscriber_component subscriber))
    h ← or_type_error found
    state ← read_handler h
    handle (send state.bus) (kind_transform state.kind) state.output state.error m Value.undef

  abbrev pub exchange_topics : Dispatcher → Topics (Handlers Subscriber)
  exchange_topics (exchange m ts) = ts
  exchange_topics _ = none

  -- The topics of a channel's exchange.
  abbrev pub topics_of : ℕ → System × W → Topics (Handlers Subscriber)
  topics_of c (s, w) = elim (get_elem? s.channels c) [
    | some state ↦ exchange_topics state.dispatcher
    | none ↦ none
  ]

  -- The matchers; the topical one has one cache for all exchanges.
  unfoldable pub match_topic : Matcher → Str → Value → Run W Bool
  match_topic Matcher.literal t topic (s, w) = (ok (literal_matcher t topic), (s, w))
  match_topic Matcher.topical t topic (s, w) =
      let (r, cache) = topical_matcher reg_exp t topic s.cache in
      (r, (record s { cache = cache }, w))

  -- `push` on the queue of a channel
  abbrev pub enqueue : ℕ → ChannelState → Outcome Bool × List Message → Run W Bool
  enqueue c state (r, queue) = do
    write_channel c (record state { dispatcher = pollable queue })
    lift r

  -- `dispatcher.dispatch` of the channel `c` of the bus `b`
  unfoldable pub dispatch_by :
      (ℕ → Send (System × W)) → ℕ → ℕ → ChannelState → Message → Dispatcher → Run W Bool
  unfolding deliver match_topic
  dispatch_by send n c state m noop = pure true
  dispatch_by send n c state m (broadcast hs) = Broadcast.dispatch (deliver send n state.bus m) hs
  dispatch_by send n c state m (unicast hs) =
      Unicast.dispatch (λ o. deliver send n state.bus m (or_missing o)) (choose c) hs
  dispatch_by send n c state m (direct h) = Direct.dispatch (deliver send n state.bus m h)
  dispatch_by send n c state m (pollable queue) =
      enqueue c state (Pollable.dispatch array_queue m queue)
  dispatch_by send n c state m (exchange matcher topics) =
      Exchange.dispatch (topics_of c) (match_topic matcher)
        (λ hs. Broadcast.dispatch (deliver send n state.bus m) hs) (header m (text "topic"))
  dispatch_by send n c state m (outer d) = dispatch_outer d m

  abbrev pub taps_dispatch :
      (ℕ → Send (System × W)) → ℕ → ℕ → Taps Subscriber → Option (Message → Run W Bool)
  taps_dispatch send n b none = none
  taps_dispatch send n b (some hs) = some (λ m. Broadcast.dispatch (deliver send n b m) hs)

  unfoldable pub wiring_of :
      (ℕ → Send (System × W)) → ℕ → ℕ → ChannelState → ℕ → ℕ → Wiring (System × W) ℕ
  unfolding dispatch_by
  wiring_of send n c state dead_letter invalid_message = record {
    dispatch_taps = taps_dispatch send n state.bus state.taps;
    dispatch = λ m. (do now ← read_channel c; dispatch_by send n c now m now.dispatcher);
    channel = c;
    dead_letter_channel = dead_letter;
    invalid_message_channel = invalid_message;
    same = eqb;
    send_to = λ d m headers. send state.bus (Value.channel_ref d) (as_value m) headers;
  }

  -- `send` of the channel `c`
  unfoldable pub channel_send : (ℕ → Send (System × W)) → ℕ → ℕ → Message → Run W (Unit {0})
  unfolding wiring_of
  channel_send send n c m = do
    state ← read_channel c
    bus ← read_bus state.bus
    Channel.send (wiring_of send n c state bus.dead_letter_channel bus.invalid_message_channel) m

  -- `bus.send(channel, payload, headers)`
  unfoldable pub send : ℕ → ℕ → Send (System × W)
  unfolding channel_send
  send zero b to payload headers = lift out_of_fuel
  send (suc n) b to payload headers = do
    target ← lift (component_of to)
    s ← get_state
    found ← lift (resolve_channel (suc n) s.0.names b target)
    ch ← or_type_error found
    m ← make_message b payload headers
    channel_send (send n) n (send_through ch m).0 (send_through ch m).1
