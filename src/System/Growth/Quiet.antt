-- ===== src/System/Growth/Quiet.antt =====
-- msgs.js: sending does not throw.
use msgs.Base.{
  ℕ, zero, suc, true, some, inl, inr, refl, sym, ◌∙◌, ◌≡◌, ◌≢◌, ◌⊎◌, eqb, eqb_iff, nat_eq,
  get_elem?,
}
use msgs.Js.Value.{Value}
use msgs.Js.Object.{Object}
use msgs.Js.Effect.{ok, throw}
use msgs.Js.Quiet.{QuietWhere, bind-QuietWhere}
use msgs.Message.{Message}
use msgs.Bus.Channel.Preserves.{send-QuietWhere}
use msgs.Bus.Handler.{as_value}
use msgs.Bus.Names.{Channel, created, topicized, Component, resolve_channel, send_through}
use msgs.System.{System, BusState, ChannelState, component_of, make_message}
use msgs.System.Sending.{Services, wiring_of, channel_send, send}
use msgs.System.Destroying.{channel_under}
use msgs.System.Growth.{Grows, Grows-refl, On, Grows-IsClosed, make_message-Preserves}
use msgs.System.Growth.Sending.{
  ServicesKeep, send-Keeps, wiring-dispatch-Preserves, wiring-taps-Keep, wiring-send-Preserves,
}

-- The channel `c` is there, its bus is, and so is the invalid message channel of that bus, which is
-- on that bus too.
pub record OnBus (s : System) (c : ℕ) : Type 0 where
  pub state : ChannelState
  pub bus : BusState
  pub invalid : ChannelState
  pub has_channel : get_elem? s.channels c ≡ some state
  pub has_bus : get_elem? s.buses state.bus ≡ some bus
  pub has_invalid : get_elem? s.channels bus.invalid_message_channel ≡ some invalid
  pub same_bus : invalid.bus ≡ state.bus

module _ {W : Type 0} (services : Services W) (s : System)
    (keeps : ServicesKeep services (Grows s)) where
  -- A bus that is there makes a message.
  make_message-Quiet :
      (b : ℕ) (bus : BusState) (payload : Value) (headers : Object Value)
      → get_elem? s.buses b ≡ some bus
      → QuietWhere (On {W = W} (Grows s)) (make_message b payload headers)
  make_message-Quiet b bus payload headers p (t, w) g e =
      let (bus', q, _, _) = g.1 b bus p in rw q (λ r. cc)

  -- A channel, on its bus, that is the invalid message channel of that bus, or whose bus sends there
  -- without throwing.
  at_channel :
      (n c : ℕ) (m : Message) (t : System) (w : W) (state : ChannelState) (bus : BusState)
      → On {W = W} (Grows s) (t, w)
      → get_elem? t.channels c ≡ some state
      → get_elem? t.buses state.bus ≡ some bus
      → ((eqb c bus.invalid_message_channel ≡ true)
          ⊎ ((headers : Object Value)
              → QuietWhere (On {W = W} (Grows s)) (
                  send services n state.bus
                    (Value.channel_ref bus.invalid_message_channel)
                    (as_value m)
                    headers)))
      → (e : Value) → (channel_send services (send services n) n c m (t, w)).0 ≢ throw e
  unfolding channel_send wiring_of
  at_channel n c m t w state bus g p q h e =
      let d = bus.dead_letter_channel in
      let i = bus.invalid_message_channel in
      rw (p, q)
        (send-QuietWhere (On (Grows s)) (wiring_of services (send services n) n c state d i)
          (wiring-taps-Keep services (Grows s) (Grows-IsClosed s) keeps (send services n)
            (send-Keeps services (Grows s) (Grows-IsClosed s) keeps n) n c state d i)
          (wiring-dispatch-Preserves services (Grows s) (Grows-IsClosed s) keeps (send services n)
            (send-Keeps services (Grows s) (Grows-IsClosed s) keeps n) n c state d i)
          (wiring-send-Preserves services (Grows s) (Grows-IsClosed s) keeps (send services n)
            (send-Keeps services (Grows s) (Grows-IsClosed s) keeps n) n c state d i)
          m h (t, w) g e)

  module _ (c : ℕ) (o : OnBus s c) where
    -- The invalid message channel throws nothing.
    invalid-Quiet :
        (n : ℕ) (m : Message)
        → QuietWhere
            (On {W = W} (Grows s))
            (channel_send services (send services n) n o.bus.invalid_message_channel m)
    invalid-Quiet n m (t, w) g e =
        let i = o.bus.invalid_message_channel in
        let (inv, p, on) = g.0 i o.invalid o.has_invalid in
        let (bus, q, same_dead, same_invalid) = g.1 o.state.bus o.bus o.has_bus in
        at_channel n i m t w inv bus g p (rw (on ∙ o.same_bus) q)
          (inl ((eqb_iff i bus.invalid_message_channel).1 (sym same_invalid))) e

    -- Nor does the bus that sends to it.
    send_invalid-Quiet :
        (n : ℕ) (payload : Value) (headers : Object Value)
        → QuietWhere (On {W = W} (Grows s)) (
            send services n o.state.bus
              (Value.channel_ref o.bus.invalid_message_channel)
              payload
              headers)
    unfolding send component_of resolve_channel send_through
    send_invalid-Quiet zero payload headers = λ x g e p. cc
    send_invalid-Quiet (suc n) payload headers =
        bind-QuietWhere (On (Grows s)) (make_message o.state.bus payload headers) _
          (make_message-Preserves (Grows s) (Grows-IsClosed s) o.state.bus payload headers)
          (make_message-Quiet o.state.bus o.bus payload headers o.has_bus) (λ m. invalid-Quiet n m)

    -- Nor does the channel.
    channel-Quiet :
        (n : ℕ) (m : Message)
        → QuietWhere (On {W = W} (Grows s)) (channel_send services (send services n) n c m)
    channel-Quiet n m (t, w) g e =
        let (state, p, on) = g.0 c o.state o.has_channel in
        let (bus, q, same_dead, same_invalid) = g.1 o.state.bus o.bus o.has_bus in
        at_channel n c m t w state bus g p (rw on q)
          (inr (λ headers. rw (on, same_invalid) (send_invalid-Quiet n (as_value m) headers))) e

send_through-channel_under : (ch : Channel) (m : Message) → (send_through ch m).0 ≡ channel_under ch
unfolding send_through
send_through-channel_under (created c) m = refl
send_through-channel_under (topicized topic ch) m = send_through-channel_under ch _

-- A send on a bus that is there, to a name or a channel that resolves to a channel that is there
-- with its bus and with the invalid message channel of that bus: it throws nothing, whatever the
-- handlers, the taps, the load balancers and the dispatchers throw on the way, there and on all the
-- channels that the message goes to from there. Afterwards every bus and every channel is still
-- there, each channel on its bus and each bus with its dead letter and its invalid message channel.
-- The code that is not of the bus removes none of these.
pub send-throws_nothing :
    {W : Type 0} (services : Services W) (s : System) (w : W) (n b : ℕ) (to payload : Value)
    (headers : Object Value) (target : Component) (ch : Channel) (bus : BusState)
    → ServicesKeep services (Grows s)
    → get_elem? s.buses b ≡ some bus
    → component_of to ≡ ok target
    → resolve_channel n s.names b target ≡ ok (some ch)
    → OnBus s (channel_under ch)
    → ((e : Value) → (send services n b to payload headers (s, w)).0 ≢ throw e)
      × Grows s (send services n b to payload headers (s, w)).1.0
unfolding send
send-throws_nothing services s w zero b to payload headers target ch bus keeps p q r o =
    (λ e t. cc, Grows-refl s)
send-throws_nothing services s w (suc n) b to payload headers target ch bus keeps p q r o = (
  rw (q, r)
      (bind-QuietWhere (On (Grows s)) (make_message b payload headers) _
        (make_message-Preserves (Grows s) (Grows-IsClosed s) b payload headers)
        (make_message-Quiet services s keeps b bus payload headers p)
        (λ m.
          rw (send_through-channel_under ch m)
            (channel-Quiet services s keeps (channel_under ch) o n (send_through ch m).1))
        (s, w) (Grows-refl s)),
  send-Keeps services (Grows s) (Grows-IsClosed s) keeps (suc n) b to payload headers (s, w)
      (Grows-refl s),
)
