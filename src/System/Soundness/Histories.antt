-- ===== src/System/Soundness/Histories.antt =====
-- msgs.js: histories of calls of the buses of a program.
use msgs.Base.{ℕ, suc, some, ◌≡◌, ◌≢◌, nat_eq, get_elem?}
use msgs.Js.Text.{Str, str_eq}
use msgs.Js.Value.{Value}
use msgs.Js.Object.{Object}
use msgs.Js.Effect.{pure, throw, ok}
use msgs.Bus.Names.{Channel, Component, alias, resolve_channel}
use msgs.System.{
  System, BusState, ChannelState, Dispatcher, Subscriber, subscriber_eq, Kind, set_names,
  new_channel, component_of,
}
use msgs.System.Growth.{Grows, Grows-refl}
use msgs.System.Growth.Sending.{ServicesKeep, send-Keeps}
use msgs.System.Growth.Quiet.{send-throws_nothing}
use msgs.System.Sending.{Services, send}
use msgs.System.Subscribing.{subscribe, unsubscribe, tap, untap, receive}
use msgs.System.Factories.{new_handler, new_bus}
use msgs.System.Destroying.{channel_under, destroy}
use msgs.System.Soundness.{HasBus, IsSound, IsSound-OnBus}
use msgs.System.Soundness.Writes.{Stays, Stays-IsClosed}
use msgs.System.Soundness.Channels.{
  IsConsiderate, evolution-Grows, tap-Stays, untap-Stays, receive-Stays, subscribe-Stays,
  unsubscribe-Stays,
}
use msgs.System.Soundness.Operations.{
  alias-Stays, new_channel-Stays, new_handler-Stays, new_bus-Stays, destroy-Stays, services-Keep,
}

-- A call of the bus with the first number, after the fuel.
pub data Call : Type 0 where
  sends : ℕ → ℕ → Value → Value → Object Value → Call
  subscribes unsubscribes taps untaps : ℕ → ℕ → Value → Subscriber → Call
  receives : ℕ → ℕ → Value → Call
  aliases : ℕ → ℕ → Str → Component → Call
  makes_channel : ℕ → ℕ → Str → Dispatcher → Str → Call
  makes_handler : ℕ → ℕ → Str → Kind → Value → Value → Value → Call
  makes_bus destroys : ℕ → ℕ → Call

-- The bus on which a channel or a bus is made is there.
abbrev pub Suits : System → Call → Type 0
Suits s (makes_channel n b name d type) = HasBus s b
Suits s (makes_bus n b) = (parent : BusState) × (get_elem? s.buses b ≡ some parent)
Suits s _ = Unit {0}

module _ {W : Type 0} (services : Services W) where
  -- The program after a call, whether it returned, threw or ran out of fuel. To make a bus, some fuel
  -- is needed.
  unfoldable pub after_call : Call → System × W → System × W
  after_call (sends n b to payload headers) x = (send services n b to payload headers x).1
  after_call (subscribes n b from h) x = (subscribe services n b from h x).1
  after_call (unsubscribes n b from h) x = (unsubscribe services n b from h x).1
  after_call (taps n b to h) x = (tap n b to h x).1
  after_call (untaps n b to h) x = (untap n b to h x).1
  after_call (receives n b from) x = (receive n b from x).1
  after_call (aliases n b name c) (s, w) = (set_names (alias n s.names b name c) (s, w)).1
  after_call (makes_channel n b name d type) x = (new_channel n b name d type x).1
  after_call (makes_handler n b name k output input error) x =
      (new_handler services n b name k output input error x).1
  after_call (makes_bus n b) x = (new_bus services (suc n) b (λ c. pure tt) x).1
  after_call (destroys n b) x = (destroy services n b x).1

  -- The programs that calls lead to.
  pub data Reaches (x : System × W) : System × W → Type 0 where
    start : Reaches x x
    then_call :
        {y : System × W} (call : Call)
        → Reaches x y
        → Suits y.0 call
        → Reaches x (after_call call y)

  module _ (considerate : IsConsiderate services) where
    after_call-Stays :
        (s : System) (call : Call) (y : System × W)
        → Suits y.0 call
        → Stays s y.0
        → Stays s (after_call call y).0
    unfolding after_call
    after_call-Stays s (sends n b to payload headers) (t, w) q h =
        send-Keeps services (Stays s) (Stays-IsClosed s) (services-Keep services considerate s) n b
          to payload headers (t, w) h
    after_call-Stays s (subscribes n b from k) (t, w) q h =
        subscribe-Stays services considerate s n b from k (t, w) h
    after_call-Stays s (unsubscribes n b from k) (t, w) q h =
        unsubscribe-Stays services considerate s n b from k (t, w) h
    after_call-Stays s (taps n b to k) (t, w) q h = tap-Stays s n b to k (t, w) h
    after_call-Stays s (untaps n b to k) (t, w) q h = untap-Stays s n b to k (t, w) h
    after_call-Stays s (receives n b from) (t, w) q h = receive-Stays s n b from (t, w) h
    after_call-Stays s (aliases n b name c) (t, w) q h = alias-Stays s n b name c t w h
    after_call-Stays s (makes_channel n b name d type) (t, w) q h =
        new_channel-Stays s n b name d type t w q h
    after_call-Stays s (makes_handler n b name k output input error) (t, w) q h =
        new_handler-Stays services considerate s n b name k output input error (t, w) h
    after_call-Stays s (makes_bus n b) (t, w) (parent, p) h =
        new_bus-Stays services considerate s n b parent t w p h
    after_call-Stays s (destroys n b) (t, w) q h = destroy-Stays services considerate s n b (t, w) h

    Reaches-Stays : (x y : System × W) → Reaches x y → IsSound x.0 → Stays x.0 y.0
    Reaches-Stays x _ start h = (h, Grows-refl x.0)
    Reaches-Stays x _ (then_call {y = y} call r q) h =
        after_call-Stays x.0 call y q (Reaches-Stays x y r h)

    services-Grow : (s : System) → ServicesKeep services (Grows s)
    services-Grow s = record {
      transform_keeps = λ t m o e.
          evolution-Grows s (services.transform t m o e) (considerate.transforms t m o e);
      choice_keeps = λ c hs. evolution-Grows s (services.choose c hs) (considerate.chooses c hs);
      outer_keeps =
          λ d m. evolution-Grows s (services.dispatch_outer d m) (considerate.dispatches d m);
    }

-- After any calls of a sound program, in any order and however each of them ended, the program is
-- sound, no bus and no channel that it had is gone, and a send throws nothing that is made on a bus
-- that is there, to a name or a channel that resolves to a channel that is there: whatever the
-- handlers, the taps, the load balancers and the dispatchers throw on the way. A program is sound
-- if it has names for as many buses as it has, and if every channel is on a bus that is there,
-- whose invalid message channel is there and on that bus. The calls are send, subscribe,
-- unsubscribe, tap, untap, receive, alias and destroy, those that make a handler, those that make a
-- channel on a bus that is there with its invalid message channel on it, and those that make a bus
-- without a config under a bus that is there. The code that is not of the bus keeps a program sound
-- and removes neither buses nor channels.
pub Reaches-throws_nothing :
    {W : Type 0} (services : Services W) (x y : System × W) (n b : ℕ) (to payload : Value)
    (headers : Object Value) (target : Component) (ch : Channel) (bus : BusState)
    (state : ChannelState)
    → IsConsiderate services
    → IsSound x.0
    → Reaches services x y
    → get_elem? y.0.buses b ≡ some bus
    → component_of to ≡ ok target
    → resolve_channel n y.0.names b target ≡ ok (some ch)
    → get_elem? y.0.channels (channel_under ch) ≡ some state
    → IsSound y.0
      × Grows x.0 y.0
      × ((e : Value) → (send services n b to payload headers y).0 ≢ throw e)
Reaches-throws_nothing services x (t, w) n b to payload headers target ch bus state considerate
      sound r p q found there =
    let (now, more) = Reaches-Stays services considerate x (t, w) r sound in
    (
      now,
      more,
      (send-throws_nothing services t w n b to payload headers target ch bus
          (services-Grow services considerate t) p q found
          (IsSound-OnBus t (channel_under ch) state now there)).0,
    )
