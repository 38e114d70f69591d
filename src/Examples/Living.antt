-- ===== src/Examples/Living.antt =====
-- Calls of a program of one bus, and a send of its child afterwards.
use msgs.Base.{ℕ, zero, suc, sym, none, some, List, [], ◌∷◌, ◌≡◌, ◌≢◌, refl, nat_eq, get_elem?}
use msgs.Js.Text.{text}
use msgs.Js.Value.{Value}
use msgs.Js.Effect.{throw, ok}
use msgs.Bus.Names.{created, named, resolve_channel}
use msgs.System.{System, ChannelState, by_ref, unicast, transforming, noop_channel, component_of}
use msgs.System.Growth.{Grows, Grows-refl}
use msgs.System.Sending.{send}
use msgs.System.Soundness.{HasBus, IsSound}
use msgs.System.Soundness.Channels.{IsConsiderate, Evolves}
use msgs.System.Soundness.Histories.{
  makes_channel, makes_handler, makes_bus, after_call, Reaches, start, then_call,
  Reaches-throws_nothing,
}
use msgs.System.Construction.{child_state, broadcasting}
use msgs.Examples.Growing.{one_bus, root_state}
use msgs.Examples.Running.{services}

has_root : HasBus one_bus 0
has_root = (root_state, refl, broadcasting 0 [], refl, refl)

one_bus-IsSound : IsSound one_bus
one_bus-IsSound = (refl, on_root)
  where
    same : (x y : ChannelState) → some x ≡ some y → x.bus ≡ y.bus
    same x y q = cc

    on_root :
        (c : ℕ) (state : ChannelState)
        → get_elem? one_bus.channels c ≡ some state
        → HasBus one_bus state.bus
    on_root zero state p = rw (sym (same _ state p)) has_root
    on_root (suc zero) state p = rw (sym (same _ state p)) has_root
    on_root (suc (suc zero)) state p = rw (sym (same _ state p)) has_root
    on_root (suc (suc (suc c))) state p = absurd (cc p)

considerate : IsConsiderate services
considerate = record {
  transforms = noted;
  chooses = λ c hs s w. (λ h. h, Grows-refl s);
  dispatches = λ d m s w. (λ h. h, Grows-refl s);
  subscribes = λ d h k s w. (λ h. h, Grows-refl s);
  unsubscribes = λ d h k s w. (λ h. h, Grows-refl s);
  destroys = λ d s w. (λ h. h, Grows-refl s);
}
  where
    noted : (t : ℕ) (m : msgs.Message.Message) (o e : Value) → Evolves (services.transform t m o e)
    noted zero m o e s w = (λ h. h, Grows-refl s)
    noted (suc t) m o e s w = (λ h. h, Grows-refl s)

abbrev c : Value
c = Value.str (text "c")

-- The channel with its handler.
abbrev heard : ChannelState
heard = record {
  bus = 0;
  dispatcher = unicast (some (by_ref 2 ∷ []));
  taps = none;
  type = text "default";
}

-- The bus makes a channel, a child, and a handler of the channel, which throws.
abbrev made : System × List Value
made = after_call services (makes_handler 4 0 [] (transforming 1) noop_channel c Value.undef) (
    after_call services (makes_bus 4 0) (
      after_call services (makes_channel 4 0 (text "c") (unicast (some [])) (text "default"))
        (one_bus, [])))

-- The child of the bus, and the channel that its name leads the child to.
found :
    (get_elem? made.0.buses 1 ≡ some (child_state 1 4))
    × (resolve_channel 9 made.0.names 1 (named (text "c")) ≡ ok (some (created 3)))
    × (get_elem? made.0.channels 3 ≡ some heard)
unfolding msgs.System.component_of msgs.Bus.Names.resolve_channel
    msgs.System.Soundness.Histories.after_call msgs.System.new_channel
    msgs.System.Factories.new_handler msgs.System.Factories.new_bus
    msgs.System.Factories.construct_bus msgs.System.Factories.share_with_parent
    msgs.System.Factories.share msgs.System.Factories.forward msgs.System.Subscribing.subscribe
    msgs.System.Subscribing.subscribe_channel msgs.System.Subscribing.method_through
    msgs.System.Subscribing.resolve msgs.System.Subscribing.subscribe_by msgs.Bus.Names.alias
    msgs.Js.Object.has msgs.Bus.Names.bus_at msgs.Bus.Names.set_components msgs.Js.Object.put
    msgs.Js.Value.truthy msgs.Dispatchers.Subscribable.subscribe
    msgs.Dispatchers.Subscribable.index_of msgs.System.set_at msgs.Bus.Names.with_topic
    msgs.Bus.Names.topic_of msgs.Js.Object.get msgs.Bus.Names.key_of msgs.Bus.Names.parse_name
    msgs.Bus.Names.resolve_handler msgs.Bus.Names.without_topic
found = (refl, refl, refl)

called : component_of c ≡ ok (named (text "c"))
unfolding component_of
called = refl

made_by_calls : Reaches services (one_bus, []) made
unfolding after_call msgs.System.new_channel msgs.Bus.Names.alias msgs.Bus.Names.resolve_channel
    msgs.Js.Object.has msgs.Bus.Names.bus_at msgs.Bus.Names.set_components msgs.Js.Object.put
made_by_calls =
    then_call (makes_handler 4 0 [] (transforming 1) noop_channel c Value.undef)
      (then_call (makes_bus 4 0)
        (then_call (makes_channel 4 0 (text "c") (unicast (some [])) (text "default")) start
          has_root)
        (root_state, refl))
      tt

Reaches-throws_nothing_example :
    IsSound made.0
    × Grows one_bus made.0
    × ((e : Value) → (send services 9 1 c (Value.num 7) [] made).0 ≢ throw e)
Reaches-throws_nothing_example =
    Reaches-throws_nothing services (one_bus, []) made 9 1 c (Value.num 7) [] (named (text "c"))
      (created 3) (child_state 1 4) heard considerate one_bus-IsSound made_by_calls found.0 called
      found.1 found.2
