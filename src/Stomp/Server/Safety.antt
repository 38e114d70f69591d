-- ===== src/Stomp/Server/Safety.antt =====
-- channels/dispatchers/stomp.js: what holds of the dispatcher's tables after the frames of the server.

use msgs.Dispatchers.Broadcast.Preserves.{dispatch-Preserves}
use msgs.Js.Effect.{Js, Outcome, ok, throw, out_of_fuel, throws, for_each, or_type_error}
use msgs.Js.Object.{get}
use msgs.Js.Preserves.{Preserves, bind-Preserves, for_each-Preserves}
use msgs.Js.Text.{Str, str_eq, text}
use msgs.Js.Value.{Value, truthy, to_string}
use msgs.Message.{Factory, Message, header}
use msgs.Stomp.Frame.{parse}
use msgs.Stomp.Client.{Client, Outside, Tables, notify, get_tables, message}
use msgs.Stomp.Dispatcher.Safety.{
  Holds, IsRespectful, TablesHold, build-send_command-Preserves, notify-Preserves,
}
use msgs.Stomp.Server.{
  on_server_frame, route, route_named, unknown_command, handle_message_frame, handle_receipt_frame,
  handle_connected_frame, handle_error_frame, dispatch_local, after_dispatch, acknowledge,
  acknowledges, ack_frame, delete_receipt,
}
use msgs.Base.{
  Bool, Eq, Option, Bool-cases, inl, inr, none, some, true, false, ℕ, if◌then◌else◌, nat_eq, ◌==◌,
}

module _ {H W : Type 0} ⦃e : Eq H⦄ (ack : Str) (outside : Outside H W)
    (r : IsRespectful outside) where
  acknowledge-Preserves :
      (id : Value) (handled : Bool) → Preserves Holds (acknowledge ack outside id handled)
  unfolding acknowledge
  acknowledge-Preserves id handled w p = elim (Bool-cases (acknowledges ack outside id)) [
    | inl yes' ↦
        rw yes' (build-send_command-Preserves outside r (ack_frame ack outside handled id) w p)
    | inr no' ↦ rw no' p
  ]

  after_dispatch-Preserves :
      (id : Value) (o : Outcome Bool) → Preserves Holds (after_dispatch ack outside id o)
  unfolding after_dispatch
  after_dispatch-Preserves id (ok handled) = acknowledge-Preserves id handled
  after_dispatch-Preserves id (throw v) =
      bind-Preserves Holds (acknowledge ack outside id false) (λ _. throws v)
        (acknowledge-Preserves id false) (λ _ w p. p)
  after_dispatch-Preserves id out_of_fuel = λ w p. p

  get_tables-Preserves : Preserves (Holds {H = H} {W = W}) get_tables
  get_tables-Preserves (c, w) p = go c.tables
    where
      go : (o : Option (Tables H)) → Holds ((or_type_error {W = Client H × W} o) (c, w)).1
      go none = p
      go (some t) = p

  or_type_error-Preserves :
      {A : Type 0} (o : Option A) → Preserves (Holds {H = H} {W = W}) (or_type_error o)
  or_type_error-Preserves none w p = p
  or_type_error-Preserves (some a) w p = p

  dispatch_local-Preserves : (m : Message) → Preserves Holds (dispatch_local ack outside m)
  unfolding dispatch_local
  dispatch_local-Preserves m = bind-Preserves Holds get_tables _ get_tables-Preserves (λ t.
      bind-Preserves Holds
        (or_type_error (get t.subscriptions (to_string (header m (text "subscription"))))) _
        (or_type_error-Preserves (get t.subscriptions (to_string (header m (text "subscription")))))
        (λ s. dispatch-Preserves Holds (outside.deliver m) (r.delivery m) s.handlers))

  handle_message_frame-Preserves :
      (m : Message) → Preserves Holds (handle_message_frame ack outside m)
  unfolding handle_message_frame
  handle_message_frame-Preserves m w p =
      after_dispatch-Preserves (header m (text "message-id")) (dispatch_local ack outside m w).0
        (dispatch_local ack outside m w).1 (dispatch_local-Preserves m w p)

  -- A receipt leaves the subscriptions and the destinations alone.
  delete_receipt-Holds :
      (k : Str) (o : Option (Tables H)) (ready : Bool) (n : ℕ) (f : Factory) (w : W)
      → TablesHold o n
      → Holds
          (delete_receipt ack outside k
            (record { tables = o; ready = ready; counter = n; factory = f }, w)).1
  unfolding delete_receipt
  delete_receipt-Holds k none ready n f w v = tt
  delete_receipt-Holds k (some t) ready n f w v = v

  handle_receipt_frame-Preserves :
      (m : Message) → Preserves Holds (handle_receipt_frame ack outside m)
  unfolding handle_receipt_frame
  handle_receipt_frame-Preserves m =
      let k = to_string (header m (text "receipt-id")) in
      bind-Preserves Holds get_tables _ get_tables-Preserves (λ t.
        bind-Preserves Holds (or_type_error (get t.receipts k)) _
          (or_type_error-Preserves (get t.receipts k))
          (λ notices.
            bind-Preserves Holds (for_each (notify outside) notices) _
              (for_each-Preserves Holds (notify outside) notices (notify-Preserves outside r))
              (λ _ (s : Client H × W) p.
                delete_receipt-Holds k s.0.tables s.0.ready s.0.counter s.0.factory s.1 p)))

  unknown_command-Preserves :
      (v : Value) (b : Bool) → Preserves Holds (unknown_command ack outside v b)
  unfolding unknown_command
  unknown_command-Preserves v true w p = p
  unknown_command-Preserves v false w p = p

  handle_connected_frame-Preserves :
      (m : Message) → Preserves Holds (handle_connected_frame ack outside m)
  unfolding handle_connected_frame
  handle_connected_frame-Preserves m (c, w) p =
      r.notice (text "connected") (message m) (record c { ready = true }, w) p

  handle_error_frame-Preserves : (m : Message) → Preserves Holds (handle_error_frame ack outside m)
  unfolding handle_error_frame
  handle_error_frame-Preserves m (c, w) p =
      r.notice (text "disconnected") (message m) (record c { ready = false }, w) p

  if-Preserves :
      (b : Bool) (m k : Js (Client H × W) (Unit {0}))
      → Preserves Holds m
      → Preserves Holds k
      → Preserves Holds (if b then m else k)
  if-Preserves true m k p q = p
  if-Preserves false m k p q = q

  route_named-Preserves : (m : Message) (s : Str) → Preserves Holds (route_named ack outside m s)
  unfolding route_named
  route_named-Preserves m s =
      if-Preserves (s == text "MESSAGE") _ _ (handle_message_frame-Preserves m) (
        if-Preserves (s == text "RECEIPT") _ _ (handle_receipt_frame-Preserves m) (
          if-Preserves (s == text "ERROR") _ _ (handle_error_frame-Preserves m) (
            if-Preserves (s == text "CONNECTED") _ _ (handle_connected_frame-Preserves m)
              (unknown_command-Preserves (Value.str s) (truthy (Value.str s))))))

  route-Preserves : (m : Message) (v : Value) → Preserves Holds (route ack outside m v)
  unfolding route
  route-Preserves m (Value.str s) = route_named-Preserves m s
  route-Preserves m Value.undef = unknown_command-Preserves Value.undef (truthy Value.undef)
  route-Preserves m v = unknown_command-Preserves v (truthy v)

  pub on_server_frame-Preserves : (v : Value) → Preserves Holds (on_server_frame ack outside v)
  unfolding on_server_frame
  on_server_frame-Preserves v (c, w) p =
      let (m, f) = parse c.factory v in
      route-Preserves m (header m (text "command")) (record c { factory = f }, w) p
