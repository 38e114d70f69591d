-- ===== src/Stomp/Commands.antt =====
-- The frames that a STOMP client sends. Each goes through `_message`, so the bus counts it.

pub mod Send
use msgs.Js.Object.{Object, assign, put}
use msgs.Js.Text.{Str, text}
use msgs.Message.{Factory, Message, header, mixin_headers, new_message}
use msgs.Js.Value.{Value, truthy}
use msgs.Base.{List, [], if◌then◌else◌, ◌∷◌}
use msgs.Stomp.Frame.{build}
use msgs.Js.Effect.{Outcome}

-- An object literal.
abbrev pub literal : List (Str × Value) → Object Value
literal = assign []

-- `if (receipt) { headers.receipt = receipt; }`
unfoldable pub with_receipt : Value → Object Value → Object Value
with_receipt receipt headers =
    if truthy receipt then put headers (text "receipt") receipt else headers

-- `this.build(bus._message(undef, headers))`
unfoldable pub build_message : Factory → Object Value → Outcome Str × Factory
build_message f headers = let (m, f') = new_message f Value.undef headers in (build m, f')

unfoldable pub build_heart_beat_frame : Factory → Message × Factory
build_heart_beat_frame f = new_message f (Value.str (10 ∷ [])) []

pub record ConnectOptions : Type 0 where
  pub host : Value
  pub login : Value
  pub passcode : Value

unfoldable pub connect_headers : ConnectOptions → Object Value
connect_headers opts =
    let headers = literal (
      (text "command", Value.str (text "CONNECT"))
      ∷ (text "accept-version", Value.str (text "1.1,1.2"))
      ∷ (text "host", opts.host)
      ∷ (text "heart-beat", Value.str (text "0,0"))
      ∷ []) in
    if truthy opts.login
    then put (put headers (text "login") opts.login) (text "passcode") opts.passcode
    else headers

unfoldable pub build_connect_frame : Factory → ConnectOptions → Outcome Str × Factory
unfolding connect_headers build_message
build_connect_frame f opts = build_message f (connect_headers opts)

-- `v || w`
abbrev pub or_value : Value → Value → Value
or_value v w = if truthy v then v else w

unfoldable pub send_headers : Message → Value → Object Value
unfolding with_receipt
send_headers m receipt = with_receipt receipt (
    literal (
      (text "command", Value.str (text "SEND"))
      ∷ (text "destination", header m (text "topic"))
      ∷ (text "content-type", or_value (header m (text "contentType")) Value.undef)
      ∷ (text "topic", Value.undef)
      ∷ (text "contentType", Value.undef)
      ∷ []))

unfoldable pub build_send_frame : Message → Value → Outcome Str
unfolding send_headers
build_send_frame m receipt = build (mixin_headers m (send_headers m receipt))

unfoldable pub subscribe_headers : Value → Value → Value → Value → Object Value
unfolding with_receipt
subscribe_headers destination id ack receipt = with_receipt receipt (
    literal (
      (text "command", Value.str (text "SUBSCRIBE"))
      ∷ (text "destination", destination)
      ∷ (text "id", id)
      ∷ (text "ack", or_value ack (Value.str (text "auto")))
      ∷ []))

unfoldable pub build_subscribe_frame :
    Factory → Value → Value → Value → Value → Outcome Str × Factory
unfolding subscribe_headers build_message
build_subscribe_frame f destination id ack receipt =
    build_message f (subscribe_headers destination id ack receipt)

unfoldable pub unsubscribe_headers : Value → Value → Object Value
unfolding with_receipt
unsubscribe_headers id receipt =
    with_receipt receipt
      (literal ((text "command", Value.str (text "UNSUBSCRIBE")) ∷ (text "id", id) ∷ []))

unfoldable pub build_unsubscribe_frame : Factory → Value → Value → Outcome Str × Factory
unfolding unsubscribe_headers build_message
build_unsubscribe_frame f id receipt = build_message f (unsubscribe_headers id receipt)

unfoldable pub build_ack_frame : Factory → Value → Outcome Str × Factory
unfolding build_message
build_ack_frame f id =
    build_message f (literal ((text "command", Value.str (text "ACK")) ∷ (text "id", id) ∷ []))

unfoldable pub build_nack_frame : Factory → Value → Outcome Str × Factory
unfolding build_message
build_nack_frame f id =
    build_message f (literal ((text "command", Value.str (text "NACK")) ∷ (text "id", id) ∷ []))

unfoldable pub build_disconnect_frame : Factory → Value → Outcome Str × Factory
unfolding with_receipt build_message
build_disconnect_frame f receipt =
    build_message f
      (with_receipt receipt (literal ((text "command", Value.str (text "DISCONNECT")) ∷ [])))
