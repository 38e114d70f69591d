-- ===== src/Gateways.antt =====
-- gateways.js, on a bus whose channels are direct ones: those of the gateways' replies, and those of
-- services. A promise is made and settled by the library `when`.
pub mod Reply
use msgs.Bus.Channel
use msgs.Dispatchers.Direct
use msgs.Message.{Factory, Message, new_message}
use msgs.Js.Effect.{
  Js, Outcome, ok, pure, get_state, lift, or_type_error, out_of_fuel, throws, ◌>>=◌, ◌>>◌,
}
use msgs.Base.{List, [], length, suc, ℕ, ◌++◌, ◌∷◌, false, get_elem?, none, zero}
use msgs.Js.Value.{Value}
use msgs.Bus.Handler.{Transform, Send, handle}
use msgs.Bus.Kinds.{outbound_adapter, UserFunction}
use msgs.Js.Object.{Object}
use msgs.Js.Text.{text}
use msgs.Bus.Channel.{Wiring}
use msgs.Bus.Names.{Channel, channel}

-- `when.defer()`, `resolve` and `reject`, on the state of all promises.
pub record Deferreds (D W : Type 0) : Type 0 where
  pub defer : W → D × W
  pub resolve : D → Value → W → W
  pub reject : D → Value → W → W

-- The handler of a direct channel: the outbound adapter of a promise, or a service.
pub data Target (D H : Type 0) : Type 0 where
  resolving rejecting : D → Target D H
  serving : H → Target D H

-- The bus, and the counter of a gateway.
pub record GatewayBus (D H : Type 0) : Type 0 where
  pub channels : List (Target D H)
  pub factory : Factory
  pub counter : ℕ

module _ {D H W : Type 0} where
  -- `this._channel(undef, directDispatcher(…))`
  abbrev pub add_channel : Target D H → Js (GatewayBus D H × W) Value
  add_channel t (b, w) = (
    ok (Value.channel_ref (length b.channels)),
    (record b { channels = b.channels ++ t ∷ [] }, w),
  )

  abbrev pub count : Js (GatewayBus D H × W) ℕ
  count (b, w) = (ok b.counter, (record b { counter = suc b.counter }, w))

  abbrev pub outside : {A : Type 0} → (W → Outcome A × W) → Js (GatewayBus D H × W) A
  outside f (b, w) = let (r, w') = f w in (r, (b, w'))

  -- `this._message(payload, headers)`
  abbrev pub make_message : Value → Object Value → Js (GatewayBus D H × W) Message
  make_message payload headers (b, w) =
      let (m, f) = new_message b.factory payload headers in (ok m, (record b { factory = f }, w))

-- What a handler's service does, and the bus's other channels.
pub record Services (D H W : Type 0) : Type 0 where
  pub serve : H → Message → W → Outcome Value × W
  pub noop_channel : Value
  pub dead_letter_channel : Value
  pub invalid_message_channel : Value
  pub undelivered : Value → Message → Object Value → Js (GatewayBus D H × W) (Unit {0})

pub reply_headers : Value → Value → ℕ → Object Value
reply_headers reply error n =
    (text "replyChannel", reply)
    ∷ (text "errorChannel", error)
    ∷ (text "sequenceNumber", Value.num n)
    ∷ []

module _ {D H W : Type 0} (deferreds : Deferreds D W) (services : Services D H W) where
  open deferreds use {defer, resolve, reject}
  open services use {serve, noop_channel, dead_letter_channel, invalid_message_channel, undelivered}

  -- What the handler of a channel does to a message.
  unfoldable pub target_transform : Target D H → Transform (GatewayBus D H × W)
  target_transform (resolving d) =
      outbound_adapter (λ c p h. pure tt) (λ v. outside (λ w. (ok Value.undef, resolve d v w)))
  target_transform (rejecting d) =
      outbound_adapter (λ c p h. pure tt) (λ v. outside (λ w. (ok Value.undef, reject d v w)))
  target_transform (serving h) = λ m reply error. outside (serve h m)

  -- The output channel that the handler was made with.
  target_output : Target D H → Value
  target_output (serving h) = Value.undef
  target_output _ = noop_channel

  -- A direct channel of this bus is neither of the two for messages that are not delivered.
  pub wiring_of : Send (GatewayBus D H × W) → ℕ → Target D H → Wiring (GatewayBus D H × W) Value
  unfolding target_output target_transform
  wiring_of send c t = record {
    dispatch_taps = none;
    dispatch = λ m.
        Direct.dispatch
          (handle send (target_transform t) (target_output t) Value.undef m Value.undef);
    channel = Value.channel_ref c;
    dead_letter_channel = dead_letter_channel;
    invalid_message_channel = invalid_message_channel;
    same = λ c d. false;
    send_to = undelivered;
  }

  -- `bus.send`; the fuel counts how deep handlers send
  unfoldable pub send : ℕ → Send (GatewayBus D H × W)
  unfolding wiring_of
  send zero to payload headers = lift out_of_fuel
  send (suc n) (Value.channel_ref c) payload headers = do
    s ← get_state
    t ← or_type_error (get_elem? s.0.channels c)
    m ← make_message payload headers
    Channel.send (wiring_of (send n) c t) m
  send (suc n) to payload headers = throws Value.type_error

  -- The function that `inboundGateway` returns.
  unfoldable pub inbound_gateway : ℕ → Value → Value → Js (GatewayBus D H × W) D
  unfolding reply_headers
  inbound_gateway fuel output payload = do
    d ← outside (λ w. let (d, w') = defer w in (ok d, w'))
    reply ← add_channel (resolving d)
    error ← add_channel (rejecting d)
    n ← count
    send fuel output payload (reply_headers reply error n)
    pure d

-- The transform of `outboundGateway`: `when` is told what to do with a result and with an error, now
-- or when the promise that the service returned is settled.
unfoldable pub outbound_gateway :
    {W : Type 0}
    → Send W
    → UserFunction W
    → (Value → (Value → Js W (Unit {0})) → (Value → Js W (Unit {0})) → Js W (Unit {0}))
    → Transform W
outbound_gateway send service when_settled m reply error = do
  result ← service m.payload m.headers
  when_settled result (λ v. send reply v m.headers) (λ v. send error v m.headers)
  pure Value.undef
