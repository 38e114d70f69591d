-- ===== src/Bus/Names.antt =====
-- msgs.js: how a bus finds channels and handlers by name, `alias`, and `exportChannel`. Buses stand
-- in a store, by number. Resolution follows aliases and parents on fuel: aliases may go in a circle.
pub mod Inheritance
pub mod Keeps
pub mod Topic
pub mod Termination
use msgs.Js.Value
use msgs.Message.{Message, mixin_headers}
use msgs.Js.Value.{Value}
use msgs.Js.Effect.{Outcome, ok, throw, out_of_fuel}
use msgs.Js.Object.{Object, get, has, put}
use msgs.Js.Text.{Str, text}
use msgs.Base.{
  Bool, true, false, List, [], ◌∷◌, ◌++◌, Option, none, some, ℕ, zero, suc, eqb, if◌then◌else◌,
}

-- A channel: one that `_channel` made, or a channel that `topicizeChannel` wrapped.
pub data Channel : Type 0 where
  created : ℕ → Channel
  topicized : Str → Channel → Channel

-- What a name stands for. `exported b c` is a `Ref` to `resolveChannel(c)` of the bus `b`.
pub data Component : Type 0 where
  channel : Channel → Component
  handler : ℕ → Component
  named : Str → Component
  exported : ℕ → Component → Component

pub record BusNames : Type 0 where
  pub parent : Option ℕ
  pub components : Object Component

abbrev pub Store : Type 0
Store = List BusNames

-- The bus of a number; a number that no bus has stands for one without names.
unfoldable pub bus_at : Store → ℕ → BusNames
bus_at [] b = record { parent = none; components = [] }
bus_at (s ∷ store) zero = s
bus_at (s ∷ store) (suc b) = bus_at store b

unfoldable pub set_components : Store → ℕ → Object Component → Store
set_components [] b o = []
set_components (s ∷ store) zero o = record s { components = o } ∷ store
set_components (s ∷ store) (suc b) o = s ∷ set_components store b o

-- `name.match(channelTopicParserRE)`: what stands before the first `!`, and what stands behind it;
-- no topic and an empty one are alike
unfoldable pub parse_name : Str → Str × Str
parse_name [] = ([], [])
parse_name (c ∷ s) =
    let (name, topic) = parse_name s in if eqb c b'!' then ([], s) else (c ∷ name, topic)

-- The key of `name in components`, of a name without its topic: objects all print alike.
unfoldable pub key_of : Component → Str
unfolding parse_name
key_of (named s) = (parse_name s).0
key_of _ = text "[object Object]"

unfoldable pub topic_of : Component → Str
unfolding parse_name
topic_of (named s) = (parse_name s).1
topic_of _ = []

-- `topicizeChannel(topic, channel)`, if there is a topic; that of `undefined` throws
unfoldable pub with_topic : Str → Outcome (Option Channel) → Outcome (Option Channel)
with_topic [] r = r
with_topic (c ∷ s) (ok none) = throw Value.type_error
with_topic (c ∷ s) (ok (some ch)) = ok (some (topicized (c ∷ s) ch))
with_topic (c ∷ s) (throw e) = throw e
with_topic (c ∷ s) out_of_fuel = out_of_fuel

-- `undefined.match` throws.
defined : Outcome (Option Channel) → Outcome (Option Channel)
defined (ok none) = throw Value.type_error
defined r = r

-- What is left of a name when it goes to the parent: the name without its topic.
unfoldable pub without_topic : Component → Component
unfolding key_of
without_topic (named s) = named (key_of (named s))
without_topic x = x

module _ (resolve : ℕ → Component → Outcome (Option Channel)) where
  -- A component of the bus `b`; what a `Ref` resolves to is a channel, or undefined.
  resolve_component : ℕ → Component → Outcome (Option Channel)
  unfolding defined
  resolve_component b (exported b' x) = defined (resolve b' x)
  resolve_component b x = resolve b x

  resolve_in_parent : Option ℕ → Component → Outcome (Option Channel)
  unfolding without_topic
  resolve_in_parent none x = ok none
  resolve_in_parent (some p) x = resolve p (without_topic x)

  look_up : Store → ℕ → Component → Outcome (Option Channel)
  unfolding resolve_component resolve_in_parent
  look_up store b x = elim (get (bus_at store b).components (key_of x)) [
    | some y ↦ resolve_component b y
    | none ↦ resolve_in_parent (bus_at store b).parent x
  ]

-- `resolveChannel`
unfoldable pub resolve_channel : ℕ → Store → ℕ → Component → Outcome (Option Channel)
unfolding look_up
resolve_channel zero store b x = out_of_fuel
resolve_channel (suc n) store b (channel c) = ok (some c)
resolve_channel (suc n) store b x =
    with_topic (topic_of x) (look_up (resolve_channel n store) store b x)

-- The key of `name in components` in `resolveHandler`, which reads no topic.
handler_key : Component → Str
handler_key (named s) = s
handler_key _ = text "[object Object]"

module _ (resolve : ℕ → Component → Outcome (Option ℕ)) where
  -- What a `Ref` resolved to, looked up as a name, which goes by its print.
  handler_at_ref : ℕ → Outcome (Option Channel) → Outcome (Option ℕ)
  handler_at_ref b (ok (some c)) = resolve b (channel c)
  handler_at_ref b (ok none) = resolve b (named (text "undefined"))
  handler_at_ref b (throw e) = throw e
  handler_at_ref b out_of_fuel = out_of_fuel

  handler_component :
      (ℕ → Component → Outcome (Option Channel)) → ℕ → Component → Outcome (Option ℕ)
  unfolding handler_at_ref
  handler_component to_channel b (exported b' x) = handler_at_ref b (to_channel b' x)
  handler_component to_channel b x = resolve b x

  handler_in_parent : Option ℕ → Component → Outcome (Option ℕ)
  handler_in_parent none x = ok none
  handler_in_parent (some p) x = resolve p x

  look_up_handler :
      (ℕ → Component → Outcome (Option Channel)) → Store → ℕ → Component → Outcome (Option ℕ)
  unfolding handler_component handler_in_parent handler_key
  look_up_handler to_channel store b x = elim (get (bus_at store b).components (handler_key x)) [
    | some y ↦ handler_component to_channel b y
    | none ↦ handler_in_parent (bus_at store b).parent x
  ]

-- `resolveHandler`
unfoldable pub resolve_handler : ℕ → Store → ℕ → Component → Outcome (Option ℕ)
unfolding look_up_handler
resolve_handler zero store b x = out_of_fuel
resolve_handler (suc n) store b (handler h) = ok (some h)
resolve_handler (suc n) store b x =
    look_up_handler (resolve_handler n store) (resolve_channel n store) store b x

is_ref : Component → Bool
is_ref (exported b x) = true
is_ref _ = false

or_resolve : Outcome (Option Channel) → Outcome (Option ℕ) → Component → Outcome Bool
unfolding is_ref
or_resolve (ok (some c)) r x = ok true
or_resolve (ok none) (ok (some h)) x = ok true
or_resolve (ok none) (ok none) x = ok (is_ref x)
or_resolve (ok none) (throw e) x = throw e
or_resolve (ok none) out_of_fuel x = out_of_fuel
or_resolve (throw e) r x = throw e
or_resolve out_of_fuel r x = out_of_fuel

register : Store → ℕ → Str → Component → Outcome Store
register store b [] x = throw (Value.error_object (text "Unable to alias: name is required"))
register store b (c ∷ s) x =
    if has (bus_at store b).components (c ∷ s)
    then throw
        (Value.error_object (text "Unable to alias: the name '" ++ (c ∷ s) ++ text "' is in use"))
    else ok (set_components store b (put (bus_at store b).components (c ∷ s) x))

-- `alias`
unfoldable pub alias : ℕ → Store → ℕ → Str → Component → Outcome Store
unfolding or_resolve register
alias n store b name x =
    elim (or_resolve (resolve_channel n store b x) (resolve_handler n store b x) x) [
      | ok true ↦ register store b name x
      | ok false ↦
          throw (Value.error_object (text "Unable to alias: handler or channel is required"))
      | throw e ↦ throw e
      | out_of_fuel ↦ out_of_fuel
    ]

-- `exportChannel(name, channel)` of the bus `b`, whose parent is `p`
unfoldable pub export_channel : ℕ → Store → ℕ → ℕ → Str → Component → Outcome Store
unfolding alias
export_channel n store b p name x = alias n store p name (exported b x)

-- `send` of a channel that `topicizeChannel` made: the channel that is sent to in the end, and the
-- message that it is sent.
unfoldable pub send_through : Channel → Message → ℕ × Message
send_through (created n) m = (n, m)
send_through (topicized topic ch) m =
    send_through ch (mixin_headers m ((text "topic", Value.str topic) ∷ []))
