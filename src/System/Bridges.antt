-- ===== src/System/Bridges.antt =====
-- channels/dispatchers/stomp.js, the construction of the dispatcher, and channels/bridges/stomp.js. The
-- dispatcher that is made has the number `d` among those of `outer`, and its routing of the server's
-- frames the number `t` among the transforms.
use msgs.Adapters
use msgs.Adapters.{Attachment}
use msgs.Adapters.Sockets.{web_socket_gateway, stream_gateway}
use msgs.Base.{ℕ, none, some, [], ◌∷◌, if◌then◌else◌, nat_eq}
use msgs.Bus.Names.{Channel, created, topicized}
use msgs.Dispatchers.Subscribable.{subscribable_dispatcher}
use msgs.Js.Effect.{Outcome, lift, ok, pure, ◌>>=◌, ◌>>◌}
use msgs.Js.Object.{Object, get}
use msgs.Js.Text.{Str, str_eq, text}
use msgs.Js.Value.{Value, truthy}
use msgs.Message.{mixin}
use msgs.Stomp.Commands.{ConnectOptions, build_connect_frame, literal}
use msgs.System.{
  System, Run, Dispatcher, broadcast, exchange, outer, Matcher, by_ref, transforming, noop_channel,
  new_channel, read_bus, write_bus,
}
use msgs.System.Factories.{new_bus, new_handler, forward, unicast_channel}
use msgs.System.Sending.{Services, send}
use msgs.System.Subscribing.{resolve, tap}

-- `opts.name`
unfoldable pub option : Object Value → Str → Value
option opts name = elim (get opts name) [ none ↦ Value.undef | some v ↦ v ]

-- A channel that was found by a name without a topic.
abbrev pub channel_value : Channel → Value
channel_value (created c) = Value.channel_ref c
channel_value (topicized topic ch) = channel_value ch

abbrev pub connect_options : Object Value → ConnectOptions
connect_options opts = record {
  host = option opts (text "host");
  login = option opts (text "login");
  passcode = option opts (text "passcode");
}

-- What the options of a bridge over a transport are: its channels, the other way round, and what the
-- user gave.
unfoldable pub bridge_options : ℕ → ℕ → ℕ → Object Value → Object Value
unfolding mixin
bridge_options input output error opts =
    mixin
      (literal (
        (text "input", Value.channel_ref output)
        ∷ (text "output", Value.channel_ref input)
        ∷ (text "error", Value.channel_ref error)
        ∷ []))
      opts

abbrev pub transport_options : ℕ → ℕ → ℕ → Adapters.Options
transport_options input output error = record {
  input = Value.channel_ref input;
  output = Value.channel_ref output;
  error = Value.channel_ref error;
}

module _ {W : Type 0} (services : Services W) (n b : ℕ) where
  abbrev broadcast_channel : ℕ → Str → Run W ℕ
  broadcast_channel control name = new_channel n control name (broadcast subscribable_dispatcher) []

  abbrev topic_channel : ℕ → Str → Run W ℕ
  topic_channel control name = new_channel n control name (exchange Matcher.literal (some [])) []

  -- `controlBus`, with its channels
  unfoldable pub control_bus : Run W ℕ
  unfolding new_bus new_channel
  control_bus = do
    control ← new_bus services n b (λ _. pure tt)
    broadcast_channel control (text "connected")
    broadcast_channel control (text "disconnected")
    topic_channel control (text "subscribed")
    topic_channel control (text "unsubscribed")
    broadcast_channel control (text "toServer")
    broadcast_channel control (text "fromServer")
    broadcast_channel control (text "error")
    pure control

  -- `bus.tap(channel, controlBus.forward(name))`
  unfoldable pub tap_traffic : ℕ → Value → Str → Run W (Unit {0})
  unfolding forward tap
  tap_traffic control to name = do
    h ← forward services n control Value.undef (Value.str name)
    tap n b to (by_ref h)

  -- `opts.error`, once it is normalized
  unfoldable pub error_channel : ℕ → Value → Run W Value
  unfolding tap_traffic resolve
  error_channel control error =
      if truthy error
      then (do tap_traffic control error (text "error"); pure error)
      else (do ch ← resolve n control (Value.str (text "error")); pure (channel_value ch))

  -- `translator.buildConnectFrame(opts)`
  abbrev connect_frame : Object Value → Run W Str
  connect_frame opts = do
    bus ← read_bus b
    let built = build_connect_frame bus.factory (connect_options opts)
    write_bus b (record bus { factory = built.1 })
    lift built.0

  -- `stompDispatcher(bus, opts)`
  unfoldable pub stomp_dispatcher : ℕ → ℕ → Object Value → Run W Dispatcher
  unfolding control_bus tap_traffic error_channel new_handler send option
  stomp_dispatcher d t opts = do
    control ← control_bus
    tap_traffic control (option opts (text "output")) (text "toServer")
    tap_traffic control (option opts (text "input")) (text "fromServer")
    error ← error_channel control (option opts (text "error"))
    new_handler services n b [] (transforming t) noop_channel (option opts (text "input")) error
    frame ← connect_frame opts
    send services n b (option opts (text "output")) (Value.str frame) []
    pure (outer d)

  unfoldable pub stomp_bridge : Str → ℕ → ℕ → Object Value → Run W ℕ
  unfolding stomp_dispatcher new_channel
  stomp_bridge name d t opts = do
    dispatcher ← stomp_dispatcher d t opts
    new_channel n b name dispatcher (text "stomp")

  -- `attachment` is the bus's own `outboundAdapter`, `subscribe` and `unsubscribe`, and what registers a
  -- listener with the socket or the stream.
  module _ (attachment : Attachment ℕ (System × W)) where
    unfoldable pub stomp_web_socket_bridge :
        (Value → Outcome Value) → (Value → Run W Value) → Str → ℕ → ℕ → Object Value → Run W ℕ
    unfolding unicast_channel web_socket_gateway stomp_bridge bridge_options
    stomp_web_socket_bridge data_of socket_send name d t opts = do
      input ← unicast_channel n b []
      output ← unicast_channel n b []
      error ← unicast_channel n b []
      web_socket_gateway attachment data_of socket_send (transport_options input output error)
      stomp_bridge name d t (bridge_options input output error opts)

    unfoldable pub stomp_stream_bridge :
        (Value → Run W Value) → Str → ℕ → ℕ → Object Value → Run W ℕ
    unfolding unicast_channel stream_gateway stomp_bridge bridge_options
    stomp_stream_bridge write name d t opts = do
      input ← unicast_channel n b []
      output ← unicast_channel n b []
      error ← unicast_channel n b []
      stream_gateway attachment (λ v. ok v) write (transport_options input output error)
      stomp_bridge name d t (bridge_options input output error opts)
