-- ===== src/Examples/Messaging.antt =====
-- Messages, channels, handlers and frames on concrete inputs.
use msgs.Js.Value
use msgs.Stomp.Commands.{build_send_frame}
use msgs.Stomp.Commands.Send.{send_message, without_header, declared_names, send_message-headers}
use msgs.Js.Object.Laws.{Distinct}
use msgs.Js.Value.{Value, truthy}
use msgs.Base.{[], ◌∷◌, ℕ, some, true, ◌≡◌, refl, nat_eq, ◌*◌, ◌+◌, All, false, ◌==◌}
use msgs.Js.Text.{Str, str_eq, text}
use msgs.Js.Object.{has, Object, get, has}
use msgs.Js.Effect.{ok, throws}
use msgs.Js.Quiet.{IsQuiet}
use msgs.Message.{Message, header, new_message}
use msgs.Message.Headers.{new_message-declared}
use msgs.Message.Ids.{id_text_injective}
use msgs.Bus.Handler.{Send, Transform, handle, as_value}
use msgs.Bus.Handler.Errors.{handle-IsQuiet, next_error, next_output}
use msgs.Stomp.Frame.{build}

abbrev order : Message
order = record {
  payload = Value.num 7;
  headers = (text "id", Value.str (text "0-3")) ∷ (text "topic", Value.str (text "orders")) ∷ [];
}

abbrev new_topic : Object Value
new_topic = (text "topic", Value.str (text "bills")) ∷ []

new_message-declared_example :
    get
      (new_message
        (record { bus_id = 0; next_message = 4 })
        (Value.message_object
          (Value.num 7)
          (Value.field (text "topic") (Value.str (text "orders")) Value.end))
        new_topic).0.headers
      (text "topic")
    ≡ some (Value.str (text "bills"))
unfolding get has
new_message-declared_example =
    new_message-declared (record { bus_id = 0; next_message = 4 })
      (Value.message_object (Value.num 7)
        (Value.field (text "topic") (Value.str (text "orders")) Value.end))
      new_topic (text "topic") (Value.str (text "bills")) (refl, tt) refl

id_text_injective_example : (12 ≡ 4 * 3) × (5 ≡ 2 + 3)
id_text_injective_example = id_text_injective 12 (4 * 3) 5 (2 + 3) refl

-- A bus that counts what is sent, and a transform that throws.
abbrev counting : Send ℕ
counting target payload headers w = (ok tt, w + 1)

abbrev throwing : Transform ℕ
throwing m next_output next_error = throws Value.null

has_error_channel : truthy (next_error (Value.channel_ref 4) order) ≡ true
unfolding truthy next_error
has_error_channel = refl

counted-IsQuiet :
    (e : Value)
    → IsQuiet (
        counting (next_error (Value.channel_ref 4) order) (as_value order) ((text "error", e) ∷ []))
counted-IsQuiet v w e p = cc

handle-IsQuiet_example :
    IsQuiet (handle counting throwing (Value.channel_ref 3) (Value.channel_ref 4) order Value.undef)
handle-IsQuiet_example =
    handle-IsQuiet counting throwing (Value.channel_ref 3) (Value.channel_ref 4) Value.undef order
      has_error_channel counted-IsQuiet

-- A message that becomes a frame.
abbrev greeting : Message
greeting = record {
  payload = Value.str (text "hello");
  headers =
      (text "command", Value.str (text "send"))
      ∷ (text "destination", Value.str (text "/queue/a:b"))
      ∷ (text "count", Value.num 12)
      ∷ (text "error", Value.null)
      ∷ [];
}

order-Distinct : Distinct order.headers
unfolding has
order-Distinct = (refl, (refl, tt))

send_message-headers_example :
    (build_send_frame order Value.undef
      ≡ build (
          without_header
            (without_header (send_message order Value.undef) (text "topic"))
            (text "contentType")))
    × (header (send_message order Value.undef) (text "command") ≡ Value.str (text "SEND"))
    × (header (send_message order Value.undef) (text "destination") ≡ header order (text "topic"))
    × (header (send_message order Value.undef) (text "topic") ≡ Value.undef)
    × (header (send_message order Value.undef) (text "contentType") ≡ Value.undef)
    × ((j : Str)
        → All (λ k. (k == j) ≡ false) declared_names
        → get (send_message order Value.undef).headers j ≡ get order.headers j)
send_message-headers_example = send_message-headers order Value.undef order-Distinct
