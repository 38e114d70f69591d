-- ===== src/Stomp/Dispatcher.antt =====
-- channels/dispatchers/stomp.js: `subscribe`, `unsubscribe`, `dispatch` and `destroy`. The server is
-- told of the first handler of a destination and of the last.
pub mod Consistency
pub mod Calls
pub mod Safety
pub mod Agreement
pub mod Unready
use msgs.Dispatchers.Subscribable
use msgs.Stomp.Client.{subscribed, unsubscribed}
use msgs.Stomp.Commands.{
  build_send_frame, build_subscribe_frame, build_unsubscribe_frame, ConnectOptions,
  build_connect_frame, build_disconnect_frame,
}
use msgs.Js.Decimal.{decimal}
use msgs.Dispatchers.Subscribable.{Handlers, subscribable_dispatcher}
use msgs.Message.{Factory}
use msgs.Js.Effect.{Outcome, Js, lift, pure, throws, ◌>>=◌, ◌>>◌, catching}
use msgs.Js.Object.{delete, get, put}
use msgs.Js.Text.{Str, str_eq, text}
use msgs.Js.Value.{Value}
use msgs.Message.{Message}
use msgs.Base.{Bool, List, Option, [], false, some, ℕ, nat_eq, Eq, none, true, ◌++◌, ◌∷◌}
use msgs.Stomp.Client.{
  Client, Notice, Outside, Subscription, Tables, build_frame, frame, get_tables, next_id, notify,
  send_command, set_ready, set_tables, unsubscribed,
}

-- The frames that are sent, for a bus that counts its messages.
abbrev pub subscribe_frame : Str → Str → ℕ → ℕ → Factory → Outcome Str × Factory
subscribe_frame ack destination id receipt f =
    build_subscribe_frame f (Value.str destination) (Value.num id) (Value.str ack)
      (Value.num receipt)

abbrev pub unsubscribe_frame : ℕ → ℕ → Factory → Outcome Str × Factory
unsubscribe_frame id receipt f = build_unsubscribe_frame f (Value.num id) (Value.num receipt)

module _ {H : Type 0} where
  -- The tables with a new subscription.
  unfoldable pub opened : Tables H → Str → H → Handlers H → ℕ → ℕ → Tables H
  opened t destination h hs id receipt = record {
    subscriptions = put t.subscriptions (decimal id) (record { handlers = hs; receipt = receipt });
    destinations = put t.destinations destination id;
    receipts = put t.receipts (decimal receipt) (subscribed destination h ∷ []);
  }

  -- The tables without a subscription, and with what waits for the receipt of its end.
  unfoldable pub closed : Tables H → Str → H → Str → ℕ → Tables H
  closed t destination h id receipt = record {
    subscriptions = delete t.subscriptions id;
    destinations = delete t.destinations destination;
    receipts = put t.receipts (decimal receipt) (unsubscribed destination h ∷ []);
  }

module _ {H W : Type 0} ⦃e : Eq H⦄ (ack : Str) (outside : Outside H W) where
  open outside use {send_output, control, destroy_control}

  -- The receipt of a destination's SUBSCRIBE frame waits, or has come.
  notify_or_wait :
      Tables H → Str → Notice H → Option (List (Notice H)) → Js (Client H × W) (Unit {0})
  unfolding notify
  notify_or_wait t receipt n (some ns) =
      set_tables (record t { receipts = put t.receipts receipt (ns ++ n ∷ []) })
  notify_or_wait t receipt n none = do set_tables t; notify outside n

  -- `subscribe`, to a destination that the server knows
  subscribe_known :
      Tables H → Str → H → Str → Option (Subscription H) → Js (Client H × W) (Unit {0})
  unfolding notify_or_wait
  subscribe_known t destination h id none = throws Value.type_error
  subscribe_known t destination h id (some s) = do
    hs ← lift (Subscribable.subscribe s.handlers h)
    notify_or_wait
        (record t { subscriptions = put t.subscriptions id (record s { handlers = hs }) })
        (decimal s.receipt) (subscribed destination h) (get t.receipts (decimal s.receipt))

  subscribe_new : Tables H → Str → H → Js (Client H × W) (Unit {0})
  unfolding opened send_command
  subscribe_new t destination h = do
    id ← next_id
    hs ← lift (Subscribable.subscribe subscribable_dispatcher h)
    receipt ← next_id
    set_tables (opened t destination h hs id receipt)
    command ← build_frame (subscribe_frame ack destination id receipt)
    send_command outside command

  subscribe_at : Tables H → Str → H → Option ℕ → Js (Client H × W) (Unit {0})
  unfolding subscribe_known subscribe_new
  subscribe_at t destination h none = subscribe_new t destination h
  subscribe_at t destination h (some id) =
      subscribe_known t destination h (decimal id) (get t.subscriptions (decimal id))

  -- `dispatcher.subscribe`
  unfoldable pub subscribe : Str → H → Js (Client H × W) (Unit {0})
  unfolding subscribe_at
  subscribe destination h = do
    t ← get_tables
    subscribe_at t destination h (get t.destinations destination)

  -- `unsubscribe`, once the handler is out of the local dispatcher
  leave : Tables H → Str → H → ℕ → Subscription H → Bool → Js (Client H × W) (Unit {0})
  unfolding closed send_command notify
  leave t destination h id s true = do
    set_tables (record t { subscriptions = put t.subscriptions (decimal id) s })
    notify outside (unsubscribed destination h)
  leave t destination h id s false = do
    receipt ← next_id
    set_tables (closed t destination h (decimal id) receipt)
    command ← build_frame (unsubscribe_frame id receipt)
    send_command outside command

  unsubscribe_from : Tables H → Str → H → ℕ → Option (Subscription H) → Js (Client H × W) (Unit {0})
  unfolding leave
  unsubscribe_from t destination h id none = throws Value.type_error
  unsubscribe_from t destination h id (some s) = do
    hs ← lift (Subscribable.unsubscribe s.handlers h)
    left ← lift (Subscribable.subscribed hs)
    leave t destination h id (record s { handlers = hs }) left

  unsubscribe_at : Tables H → Str → H → Option ℕ → Js (Client H × W) (Unit {0})
  unfolding unsubscribe_from
  unsubscribe_at t destination h none = pure tt
  unsubscribe_at t destination h (some id) =
      unsubscribe_from t destination h id (get t.subscriptions (decimal id))

  -- `dispatcher.unsubscribe`
  unfoldable pub unsubscribe : Str → H → Js (Client H × W) (Unit {0})
  unfolding unsubscribe_at
  unsubscribe destination h = do
    t ← get_tables
    unsubscribe_at t destination h (get t.destinations destination)

  -- `dispatcher.dispatch`
  unfoldable pub dispatch : Message → Js (Client H × W) Bool
  unfolding send_command
  dispatch m = do
    command ← lift (build_send_frame m Value.undef)
    send_command outside command
    pure true

  unfoldable pub disconnect : Bool → Js (Client H × W) (Unit {0})
  unfolding send_command
  disconnect false = pure tt
  disconnect true = do
    command ← build_frame (λ f. build_disconnect_frame f Value.undef)
    send_command outside command
    set_ready false
    control (text "disconnected") (frame command)

  -- `dispatcher.destroy`; the local dispatchers are destroyed with the table that holds them
  unfoldable pub destroy : Js (Client H × W) (Unit {0})
  unfolding disconnect
  destroy (c, w) =
      (do catching (disconnect c.ready) (λ v. pure tt); destroy_control)
        (record c { tables = none }, w)

  -- The end of the construction: the connection is opened.
  unfoldable pub open_connection : ConnectOptions → Js (Client H × W) (Unit {0})
  open_connection opts = do
    command ← build_frame (λ f. build_connect_frame f opts)
    send_output command
