-- ===== src/Stomp/Client.antt =====
-- channels/dispatchers/stomp.js: what the dispatcher keeps, what it calls, and `sendCommand`.

use msgs.Dispatchers.Subscribable.{Handlers}
use msgs.Js.Effect.{Js, Outcome, ok, or_type_error, get_state, throws, ◌>>=◌, ◌>>◌}
use msgs.Js.Object.{Object}
use msgs.Js.Text.{Str, str_eq, text}
use msgs.Js.Value.{Value}
use msgs.Message.{Factory, Message}
use msgs.Stomp.Frame.{build}
use msgs.Base.{
  Bool, List, Option, [], false, if◌then◌else◌, some, suc, ℕ, ◌==◌, ◌||◌, nat_eq, true, ◌++◌,
}

-- A broadcast dispatcher of local handlers, with its `subscriptionReceiptId`.
pub record Subscription (H : Type 0) : Type 0 where
  pub handlers : Handlers H
  pub receipt : ℕ

-- A callback that waits for a receipt: `controlBus.send('subscribed!' + destination, handler)`, or
-- the same of `unsubscribed`.
pub data Notice (H : Type 0) : Type 0 where
  subscribed unsubscribed : Str → H → Notice H

pub record Tables (H : Type 0) : Type 0 where
  pub subscriptions : Object (Subscription H)
  pub destinations : Object ℕ
  pub receipts : Object (List (Notice H))

-- What the dispatcher closes over. The three tables become undefined together.
pub record Client (H : Type 0) : Type 0 where
  pub tables : Option (Tables H)
  pub ready : Bool
  pub counter : ℕ
  pub factory : Factory

abbrev pub initial : {H : Type 0} → Factory → Client H
initial factory = record {
  tables = some (record { subscriptions = []; destinations = []; receipts = [] });
  ready = false;
  counter = 0;
  factory = factory;
}

-- What is sent to a channel of the control bus.
pub data Payload (H : Type 0) : Type 0 where
  handler : H → Payload H
  message : Message → Payload H
  frame : Str → Payload H

-- `opts.ack`, normalized
unfoldable pub normalize_ack : Value → Str
normalize_ack (Value.str s) =
    if s == text "client" || s == text "client-individual" then s else text "auto"
normalize_ack _ = text "auto"

abbrev pub not_ready_error : Value
not_ready_error = Value.error_object (text "STOMP connection is not ready")

-- What the dispatcher calls: `bus.send` to its output and to its error channel, `controlBus.send`,
-- `controlBus.destroy`, and `handle` of a resolved handler. Any of these may run code that calls the
-- dispatcher again.
pub record Outside (H W : Type 0) : Type 0 where
  pub send_output : Str → Js (Client H × W) (Unit {0})
  pub send_error : Str → Js (Client H × W) (Unit {0})
  pub control : Str → Payload H → Js (Client H × W) (Unit {0})
  pub destroy_control : Js (Client H × W) (Unit {0})
  pub deliver : Message → H → Js (Client H × W) (Unit {0})

module _ {H W : Type 0} where
  abbrev pub get_tables : Js (Client H × W) (Tables H)
  get_tables (c, w) = (or_type_error c.tables) (c, w)

  abbrev pub set_tables : Tables H → Js (Client H × W) (Unit {0})
  set_tables t (c, w) = (ok tt, (record c { tables = some t }, w))

  abbrev pub set_ready : Bool → Js (Client H × W) (Unit {0})
  set_ready b (c, w) = (ok tt, (record c { ready = b }, w))

  -- `counter()`
  abbrev pub next_id : Js (Client H × W) ℕ
  next_id (c, w) = (ok c.counter, (record c { counter = suc c.counter }, w))

  -- A frame of the translator, which counts the messages of the bus.
  abbrev pub build_frame : (Factory → Outcome Str × Factory) → Js (Client H × W) Str
  build_frame build (c, w) = let (r, f) = build c.factory in (r, (record c { factory = f }, w))

module _ {H W : Type 0} (outside : Outside H W) where
  open outside use {send_output, send_error, control}

  unfoldable pub send_if_ready : Str → Bool → Js (Client H × W) (Unit {0})
  send_if_ready command true = send_output command
  send_if_ready command false = do send_error command; throws not_ready_error

  -- `sendCommand`
  unfoldable pub send_command : Str → Js (Client H × W) (Unit {0})
  unfolding send_if_ready
  send_command command = do s ← get_state; send_if_ready command s.0.ready

  -- A receipt's callback.
  unfoldable pub notify : Notice H → Js (Client H × W) (Unit {0})
  notify (subscribed destination h) = control (text "subscribed!" ++ destination) (handler h)
  notify (unsubscribed destination h) = control (text "unsubscribed!" ++ destination) (handler h)
