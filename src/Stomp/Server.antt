-- ===== src/Stomp/Server.antt =====
-- channels/dispatchers/stomp.js: what the dispatcher does on the frames of the server.

pub mod Safety
pub mod Acknowledgment
use msgs.Dispatchers.Broadcast
use msgs.Stomp.Commands.{build_ack_frame, build_nack_frame}
use msgs.Js.Effect.{
  Js, Outcome, ok, or_type_error, lift, pure, throws, ◌>>=◌, ◌>>◌, for_each, out_of_fuel, throw,
}
use msgs.Js.Object.{delete, get}
use msgs.Js.Text.{Str, str_eq, text}
use msgs.Js.Value.{Value, to_string, truthy}
use msgs.Message.{Factory, Message, header}
use msgs.Stomp.Frame.{parse}
use msgs.Base.{Bool, false, if◌then◌else◌, ◌==◌, nat_eq, true, ◌++◌, not, ◌&&◌}
use msgs.Stomp.Client.{
  Client, Outside, build_frame, get_tables, message, notify, send_command, set_ready, set_tables,
}

module _ {H W : Type 0} (ack : Str) (outside : Outside H W) where
  open outside use {control, deliver}

  -- `message.headers['message-id']` and the policy
  acknowledges : Value → Bool
  acknowledges id = truthy id && not (ack == text "auto")

  unfoldable pub ack_frame : Bool → Value → Factory → Outcome Str × Factory
  ack_frame true id f = build_ack_frame f id
  ack_frame false id f = build_nack_frame f id

  -- The `finally` block.
  acknowledge : Value → Bool → Js (Client H × W) (Unit {0})
  unfolding ack_frame acknowledges send_command
  acknowledge id handled =
      if acknowledges id
      then (do command ← build_frame (ack_frame handled id); send_command outside command)
      else pure tt

  -- `try { … } catch (e) { handled = false; throw e } finally { … }`
  after_dispatch : Value → Outcome Bool → Js (Client H × W) (Unit {0})
  unfolding acknowledge
  after_dispatch id (ok handled) = acknowledge id handled
  after_dispatch id (throw v) = do acknowledge id false; throws v
  after_dispatch id out_of_fuel = lift out_of_fuel

  -- `subscriptions[message.headers.subscription].dispatch(message, handlerResolver)`
  unfoldable pub dispatch_local : Message → Js (Client H × W) Bool
  dispatch_local m = do
    t ← get_tables
    s ← or_type_error (get t.subscriptions (to_string (header m (text "subscription"))))
    Broadcast.dispatch (deliver m) s.handlers

  unfoldable pub handle_message_frame : Message → Js (Client H × W) (Unit {0})
  unfolding dispatch_local after_dispatch
  handle_message_frame m s =
      let (r, s') = dispatch_local m s in after_dispatch (header m (text "message-id")) r s'

  delete_receipt : Str → Js (Client H × W) (Unit {0})
  delete_receipt receipt = do
    t ← get_tables
    set_tables (record t { receipts = delete t.receipts receipt })

  -- The loop runs over the callbacks that are there when it starts.
  unfoldable pub handle_receipt_frame : Message → Js (Client H × W) (Unit {0})
  unfolding delete_receipt notify for_each
  handle_receipt_frame m = do
    let receipt = to_string (header m (text "receipt-id"))
    t ← get_tables
    notices ← or_type_error (get t.receipts receipt)
    for_each (notify outside) notices
    delete_receipt receipt

  unfoldable pub handle_connected_frame : Message → Js (Client H × W) (Unit {0})
  handle_connected_frame m = do set_ready true; control (text "connected") (message m)

  unfoldable pub handle_error_frame : Message → Js (Client H × W) (Unit {0})
  handle_error_frame m = do set_ready false; control (text "disconnected") (message m)

  unknown_command : Value → Bool → Js (Client H × W) (Unit {0})
  unknown_command command true =
      throws (Value.error_object (text "Unknown STOMP command: " ++ to_string command))
  unknown_command command false = pure tt

  route_named : Message → Str → Js (Client H × W) (Unit {0})
  unfolding handle_message_frame handle_receipt_frame handle_error_frame handle_connected_frame
      unknown_command
  route_named m command =
      if command == text "MESSAGE"
      then handle_message_frame m
      else if command == text "RECEIPT"
      then handle_receipt_frame m
      else if command == text "ERROR"
      then handle_error_frame m
      else if command == text "CONNECTED"
      then handle_connected_frame m
      else unknown_command (Value.str command) (truthy (Value.str command))

  -- What a frame's command leads to.
  unfoldable pub route : Message → Value → Js (Client H × W) (Unit {0})
  unfolding route_named unknown_command
  route m (Value.str command) = route_named m command
  route m command = unknown_command command (truthy command)

  -- The transform of the handler of server frames, on a message's payload.
  unfoldable pub on_server_frame : Value → Js (Client H × W) (Unit {0})
  unfolding route
  on_server_frame payload (c, w) =
      let (m, f) = parse c.factory payload in
      route m (header m (text "command")) (record c { factory = f }, w)
