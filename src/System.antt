-- ===== src/System.antt =====
-- msgs.js, `MessageBus`, `_channel` and `_handler`: the buses, channels and handlers of a program, by
-- number, and how they are made. A dispatcher, a taps dispatcher and a name are those of the modules
-- Dispatchers and Bus; what they close over stands here.
pub mod Places
pub mod Sending
pub mod Growth
pub mod Soundness
pub mod Factories
pub mod Subscribing
pub mod Destroying
pub mod Destruction
pub mod Bridges
pub mod DeadLetters
pub mod Construction
use msgs.Base.{
  ℕ, zero, suc, List, [], ◌∷◌, ◌++◌, none, Bool, true, false, Eq, ◌==◌, nat_eq, ◌≡◌, ◌↔◌, refl, ap,
  get_elem?, length, eq_iff, eqb, eqb_iff,
}
use msgs.Js.Text.{Str, str_eq}
use msgs.Js.Value
use msgs.Js.Value.{Value, to_string}
use msgs.Js.Effect.{Js, Outcome, ok, throw, out_of_fuel, pure, or_type_error, ◌>>=◌, ◌>>◌}
use msgs.Js.Object.{Object}
use msgs.Message.{Factory, Message, new_message}
use msgs.Dispatchers.Subscribable.{Handlers}
use msgs.Dispatchers.Exchange.{Topics}
use msgs.Dispatchers.Exchange.Topical.{RegExp}
use msgs.Bus.Taps.{Taps}
use msgs.Bus.Names.{created, Component, channel, handler, named, Store, alias}

-- What is subscribed: the name of a handler, a handler, or undefined.
pub data Subscriber : Type 0 where
  by_name : Str → Subscriber
  by_ref : ℕ → Subscriber
  missing : Subscriber

-- `===` on what is subscribed.
abbrev pub same_subscriber : Subscriber → Subscriber → Bool
same_subscriber (by_name s) (by_name t) = s == t
same_subscriber (by_ref m) (by_ref n) = eqb m n
same_subscriber missing missing = true
same_subscriber _ _ = false

pub same_subscriber_iff : (v w : Subscriber) → (same_subscriber v w ≡ true) ↔ (v ≡ w)
same_subscriber_iff (by_name s) (by_name t) =
    (λ h. ap by_name ((eq_iff s t).0 h), λ p. (eq_iff s t).1 (cc))
same_subscriber_iff (by_ref m) (by_ref n) =
    (λ h. ap by_ref ((eqb_iff m n).0 h), λ p. (eqb_iff m n).1 (cc))
same_subscriber_iff missing missing = (λ h. refl, λ p. refl)
same_subscriber_iff (by_name s) (by_ref n) = (λ h. cc, λ p. cc)
same_subscriber_iff (by_name s) missing = (λ h. cc, λ p. cc)
same_subscriber_iff (by_ref m) (by_name t) = (λ h. cc, λ p. cc)
same_subscriber_iff (by_ref m) missing = (λ h. cc, λ p. cc)
same_subscriber_iff missing (by_name t) = (λ h. cc, λ p. cc)
same_subscriber_iff missing (by_ref n) = (λ h. cc, λ p. cc)

instance abbrev pub subscriber_eq : Eq Subscriber
subscriber_eq = record { is_same = same_subscriber; is_same_iff = same_subscriber_iff }

pub data Matcher : Type 0 where
  literal topical : Matcher

-- A channel's dispatcher, with what it closes over. `noop` is that of `noopChannel`, and `outer` one
-- that is made elsewhere.
pub data Dispatcher : Type 0 where
  noop : Dispatcher
  broadcast unicast : Handlers Subscriber → Dispatcher
  direct : Subscriber → Dispatcher
  pollable : List Message → Dispatcher
  exchange : Matcher → Topics (Handlers Subscriber) → Dispatcher
  outer : ℕ → Dispatcher

pub record ChannelState : Type 0 where
  pub bus : ℕ
  pub dispatcher : Dispatcher
  pub taps : Taps Subscriber
  pub type : Str

-- A handler's transform: that of `forward`, or another, by number.
pub data Kind : Type 0 where
  forwarding : Kind
  transforming : ℕ → Kind

pub record HandlerState : Type 0 where
  pub bus : ℕ
  pub kind : Kind
  pub output : Value
  pub error : Value

-- What a bus closes over besides its names; its number is its `busId`.
pub record BusState : Type 0 where
  pub children : List ℕ
  pub dead_letter_channel : ℕ
  pub invalid_message_channel : ℕ
  pub factory : Factory

pub record System : Type 0 where
  pub names : Store
  pub buses : List BusState
  pub channels : List ChannelState
  pub handlers : List HandlerState
  -- `cache` of the topical matcher
  pub cache : Object RegExp

-- The state before the first bus: `noopChannel` alone.
abbrev pub initial : System
initial = record {
  names = [];
  buses = [];
  channels = record { bus = 0; dispatcher = noop; taps = none; type = [] } ∷ [];
  handlers = [];
  cache = [];
}

-- The program's buses, and the rest of its state.
abbrev pub Run : Type 0 → Type 0 → Type 0
Run W A = Js (System × W) A

-- A write at a number that is there.
unfoldable pub set_at {ℓ} : {A : Type ℓ} → List A → ℕ → A → List A
set_at [] i v = []
set_at (x ∷ xs) zero v = v ∷ xs
set_at (x ∷ xs) (suc i) v = x ∷ set_at xs i v

-- A channel as a value and as a component; `noopChannel` is made first.
abbrev pub noop_channel : Value
noop_channel = Value.channel_ref 0

-- What `resolveChannel` is given. A value that is neither a string nor a channel stands for a name by
-- its print, which has no topic.
unfoldable pub component_of : Value → Outcome Component
unfolding to_string
component_of (Value.str s) = ok (named s)
component_of (Value.channel_ref c) = ok (channel (created c))
component_of (Value.handler_ref h) = ok (handler h)
component_of Value.undef = throw Value.type_error
component_of Value.null = throw Value.type_error
component_of v = ok (named (to_string v))

module _ {W : Type 0} where
  abbrev pub read_bus : ℕ → Run W BusState
  read_bus b (s, w) = (or_type_error (get_elem? s.buses b)) (s, w)

  abbrev pub read_channel : ℕ → Run W ChannelState
  read_channel c (s, w) = (or_type_error (get_elem? s.channels c)) (s, w)

  abbrev pub read_handler : ℕ → Run W HandlerState
  read_handler h (s, w) = (or_type_error (get_elem? s.handlers h)) (s, w)

  abbrev pub write_bus : ℕ → BusState → Run W (Unit {0})
  write_bus b state (s, w) = (ok tt, (record s { buses = set_at s.buses b state }, w))

  abbrev pub write_channel : ℕ → ChannelState → Run W (Unit {0})
  write_channel c state (s, w) = (ok tt, (record s { channels = set_at s.channels c state }, w))

  abbrev pub set_names : Outcome Store → Run W (Unit {0})
  set_names (ok names) (s, w) = (ok tt, (record s { names = names }, w))
  set_names (throw e) (s, w) = (throw e, (s, w))
  set_names out_of_fuel (s, w) = (out_of_fuel, (s, w))

  -- `this._message(payload, headers)` of the bus `b`
  abbrev pub make_message : ℕ → Value → Object Value → Run W Message
  make_message b payload headers = do
    bus ← read_bus b
    let made = new_message bus.factory payload headers
    write_bus b (record bus { factory = made.1 })
    pure made.0

  -- `if (name) { this.alias(name, …) }`
  abbrev pub alias_if_named : ℕ → ℕ → Str → Component → Run W (Unit {0})
  alias_if_named n b [] x (s, w) = (ok tt, (s, w))
  alias_if_named n b (c ∷ name) x (s, w) = set_names (alias n s.names b (c ∷ name) x) (s, w)

  abbrev pub add_channel : ChannelState → Run W ℕ
  add_channel state (s, w) =
      (ok (length s.channels), (record s { channels = s.channels ++ state ∷ [] }, w))

  abbrev pub add_handler : HandlerState → Run W ℕ
  add_handler state (s, w) =
      (ok (length s.handlers), (record s { handlers = s.handlers ++ state ∷ [] }, w))

  -- `_channel` of the bus `b`, with the fuel of `alias`
  unfoldable pub new_channel : ℕ → ℕ → Str → Dispatcher → Str → Run W ℕ
  new_channel n b name dispatcher type = do
    c ← add_channel (record { bus = b; dispatcher = dispatcher; taps = none; type = type })
    alias_if_named n b name (channel (created c))
    pure c
