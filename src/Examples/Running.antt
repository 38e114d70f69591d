-- ===== src/Examples/Running.antt =====
-- Programs of several buses. The transform 0 notes the payload of a message in a list, and the transform
-- 1 throws.
use msgs.Base.{ℕ, suc, zero, List, [], ◌∷◌, ◌++◌, ◌≡◌, refl, some, none, nat_eq, Option}
use msgs.Js.Text.{Str, text, str_eq}
use msgs.Js.Value.{Value}
use msgs.Js.Value
use msgs.Js.Effect.{Outcome, ok, throw, pure, throws, ◌>>=◌, ◌>>◌}
use msgs.Message.{Message}
use msgs.Bus.Handler.{Transform}
use msgs.Base.{if◌then◌else◌, ◌==◌}
use msgs.Js.Object.{get}
use msgs.System.DeadLetters.{Line, up, here}
use msgs.System.DeadLetters.Root.{
  letter, after_letter, forwarded_times, send-letter, idle_broadcast,
}
use msgs.System.{
  BusState, ChannelState, broadcast, forwarding, noop, System, Run, initial, Subscriber, by_ref,
  transforming, noop_channel, subscriber_eq,
}
use msgs.System.Sending.{channel_send, deliver, Services, send}
use msgs.System.Subscribing.{subscribe}
use msgs.System.Factories.{construct_bus, new_bus, new_handler, unicast_channel}

abbrev noting : ℕ → Transform (System × List Value)
noting zero m o e (s, w) = (ok Value.undef, (s, w ++ m.payload ∷ []))
noting (suc t) m o e (s, w) = (throw (Value.error_object (text "no")), (s, w))

abbrev pub services : Services (List Value)
services = record {
  transform = noting;
  choose = λ c hs. pure (first hs);
  dispatch_outer = λ d m. throws Value.type_error;
  subscribe_outer = λ d h k. throws Value.type_error;
  unsubscribe_outer = λ d h k. throws Value.type_error;
  destroy_outer = λ d. pure tt;
  reg_exp = λ s. throw Value.type_error;
}
  where
    first : List Subscriber → Option Subscriber
    first [] = none
    first (h ∷ hs) = some h

-- A bus with a child, of which the child has a channel `c`; a handler of the parent's dead letters.
abbrev two : Run (List Value) ℕ
two = do
  root ← construct_bus services 5 none
  child ← new_bus services 5 root (λ b. do unicast_channel 5 b (text "c"); pure tt)
  h ←
      new_handler services 5 root [] (transforming 0) noop_channel
        (Value.str (text "deadLetterChannel")) Value.undef
  pure child

abbrev noted : Run (List Value) (Unit {0}) → Outcome (Unit {0}) × List Value
noted run = let (r, (s, w)) = run (initial, []) in (r, w)

-- A message that no handler of the child's channel takes is a dead letter of the parent.
dead_letter_of_child :
    noted (do b ← two; send services 9 b (Value.str (text "c")) (Value.num 7) [])
    ≡ (ok tt, Value.num 7 ∷ [])
unfolding send construct_bus new_bus new_handler unicast_channel msgs.Bus.Names.alias
    msgs.Bus.Names.resolve_channel msgs.Js.Object.has msgs.Bus.Names.bus_at
    msgs.Bus.Names.set_components msgs.Js.Object.put Value.truthy
    msgs.Dispatchers.Subscribable.subscribe msgs.System.set_at msgs.System.component_of
    msgs.Bus.Names.with_topic msgs.Bus.Names.topic_of msgs.Js.Object.get msgs.Bus.Names.send_through
    msgs.Bus.Channel.send msgs.Dispatchers.Unicast.dispatch msgs.Dispatchers.Broadcast.dispatch
    msgs.Bus.Handler.handle msgs.Bus.Kinds.forward msgs.Bus.Names.key_of msgs.Bus.Names.parse_name
    msgs.Bus.Names.resolve_handler msgs.Bus.Names.without_topic msgs.Dispatchers.Broadcast.visit
    msgs.Dispatchers.Subscribable.handlers_copy msgs.Dispatchers.Subscribable.index_of
    msgs.Js.Decimal.decimal msgs.Js.Object.assign msgs.Js.Object.digits_value msgs.Message.clone
    msgs.Message.header msgs.Message.id_text msgs.Message.increment msgs.Message.mixin
    msgs.Message.mixin_headers msgs.Message.mixin_message msgs.Message.new_message
    msgs.Message.stamp msgs.Message.wrap msgs.System.Sending.channel_send
    msgs.System.Sending.deliver msgs.System.Sending.dispatch_by msgs.System.Sending.wiring_of
    msgs.System.Subscribing.method_through msgs.System.Subscribing.resolve subscribe
    msgs.System.Subscribing.subscribe_by
dead_letter_of_child = refl

-- A root bus with a handler of its dead letters, and a child, whose channel 5 has no handlers.
abbrev broadcasting : ℕ → List Subscriber → ChannelState
broadcasting b hs = record { bus = b; dispatcher = broadcast (some hs); taps = none; type = [] }

abbrev child_bus : BusState
child_bus = record {
  children = [];
  dead_letter_channel = 3;
  invalid_message_channel = 4;
  factory = record { bus_id = 1; next_message = 0 };
}

abbrev two_buses : System
two_buses = record {
  names = [];
  buses =
      (record {
        children = 1 ∷ [];
        dead_letter_channel = 1;
        invalid_message_channel = 2;
        factory = record { bus_id = 0; next_message = 0 };
      })
      ∷ child_bus
      ∷ [];
  channels =
      record { bus = 0; dispatcher = noop; taps = none; type = [] }
      ∷ broadcasting 0 (by_ref 1 ∷ [])
      ∷ broadcasting 0 []
      ∷ broadcasting 1 (by_ref 0 ∷ [])
      ∷ broadcasting 1 []
      ∷ broadcasting 1 []
      ∷ [];
  handlers =
      (record { bus = 1; kind = forwarding; output = Value.channel_ref 1; error = Value.undef })
      ∷ (record { bus = 0; kind = transforming 0; output = noop_channel; error = Value.undef })
      ∷ [];
  cache = [];
}

letters_go_up : Line two_buses 3 1 1
letters_go_up =
    up
      (record {
        bus = 1;
        bus_state = child_bus;
        handler = 0;
        type = [];
        has_bus = refl;
        has_channel = refl;
        has_handler = refl;
      })
      here

-- The state that the send to the parent's dead letter channel leaves.
abbrev after_seven : System × List Value
after_seven = (after_letter two_buses 1 child_bus (Value.num 7) [], Value.num 7 ∷ [])

seven_arrives :
    channel_send services
      (send services 0)
      0
      1
      (letter child_bus (Value.num 7) [] 1)
      (after_letter two_buses 1 child_bus (Value.num 7) [], [])
    ≡ (ok tt, after_seven)
unfolding channel_send msgs.Bus.Channel.send msgs.Dispatchers.Broadcast.dispatch
    msgs.Dispatchers.Broadcast.visit msgs.Dispatchers.Subscribable.handlers_copy deliver
    msgs.Bus.Handler.handle msgs.Bus.Names.resolve_handler letter after_letter forwarded_times
    msgs.System.DeadLetters.forwarded msgs.Message.new_message
    msgs.System.DeadLetters.Letters.renewed msgs.System.set_at Value.truthy
seven_arrives = refl

send-letter_example :
    (send services 3 1 (Value.channel_ref 5) (Value.num 7) [] (two_buses, [])
      ≡ (ok tt, after_seven))
    × ((letter child_bus (Value.num 7) [] 1).payload ≡ Value.num 7)
    × ((j : Str)
        → get (letter child_bus (Value.num 7) [] 1).headers j ≡ (
            if text "id" == j
            then some (Value.str (text "1-1"))
            else get ((text "id", Value.str (text "1-0")) ∷ []) j))
unfolding msgs.Message.new_message msgs.Message.id_text msgs.Js.Decimal.decimal msgs.Js.Object.has
    msgs.Js.Object.put msgs.Js.Object.assign
send-letter_example =
    send-letter services two_buses [] after_seven 1 5 0 child_bus (broadcast (some [])) []
      (Value.num 7) [] idle_broadcast refl refl refl letters_go_up seven_arrives
