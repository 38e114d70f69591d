-- ===== src/Stomp/Protocol/Frames.antt =====
-- What the SUBSCRIBE and UNSUBSCRIBE frames of channels/translators/stomp.js say.

use msgs.Stomp.Protocol.{on_command}
use msgs.Js.Value.{Value, to_string, truthy}
use msgs.Js.Decimal.{decimal, decimal-IsDigit}
use msgs.Js.Effect.{ok}
use msgs.Js.Object.{assign, delete, get, has, put}
use msgs.Js.Text.{Str, str_eq, text, to_upper_case}
use msgs.Message.{Factory, Message, header, new_message}
use msgs.Stomp.Commands.{
  build_message, build_subscribe_frame, build_unsubscribe_frame, subscribe_headers,
  unsubscribe_headers, with_receipt,
}
use msgs.Stomp.Dispatcher.{subscribe_frame, unsubscribe_frame}
use msgs.Stomp.Frame.{body_text, body_value, build}
use msgs.Stomp.Frame.Split.{IsInline}
use msgs.Stomp.Frame.RoundTrip.{
  IsFrameable, digit-IsInline, frame_fields, parse-build, text_fields, as_headers, length_fields,
}
use msgs.Stomp.Protocol.{OpenSubscriptions, on_client_frame}
use msgs.Base.{ℕ, suc, ◌≡◌, refl, arith, [], nat_eq, ◌∙◌, ◌∷◌}

abbrev start : Factory
start = record { bus_id = 0; next_message = 0 }

-- What a frameable message is to its reader.
read_message : Message → Str → Message
read_message m command =
    (new_message start (body_value (body_text m.payload)) (
      put (assign [] (as_headers (frame_fields m))) (text "command")
        (Value.str (to_upper_case command)))).0

build-frameable :
    (m : Message) (command : Str)
    → IsFrameable m command
    → (s : Str) × (build m ≡ ok s)
      × ((o : OpenSubscriptions)
          → on_client_frame s o
            ≡ on_command
                (read_message m command)
                (header (read_message m command) (text "command"))
                o)
unfolding on_client_frame read_message
build-frameable m command h =
    let (s, p, q) = parse-build start m command h in (s, p, λ o. rw q refl)

subscribe_message : Factory → Str → Str → ℕ → ℕ → Message
subscribe_message f ack d id n =
    (new_message f Value.undef
      (subscribe_headers (Value.str d) (Value.num id) (Value.str ack) (Value.num (suc n)))).0

decimal-IsInline : (n : ℕ) → IsInline (decimal n)
decimal-IsInline n = digit-IsInline (decimal n) (decimal-IsDigit n)

subscribe_message-IsFrameable :
    (f : Factory) (ack d : Str) (id n : ℕ)
    → IsInline ack
    → IsInline d
    → IsFrameable (subscribe_message f ack d id n) (text "SUBSCRIBE")
unfolding with_receipt subscribe_message header new_message subscribe_headers put assign has get
    to_upper_case text_fields body_text truthy to_string
subscribe_message-IsFrameable f [] d id n a i = record {
  commanded = refl;
  command_inline = omega arith;
  fields_fit = (
    (omega arith, omega arith, i),
    (
      (omega arith, omega arith, decimal-IsInline id),
      (
        (omega arith, omega arith, omega arith),
        ((omega arith, omega arith, decimal-IsInline (suc n)), tt),
      ),
    ),
  );
  body_fits = tt;
}
subscribe_message-IsFrameable f (c ∷ ack) d id n a i = record {
  commanded = refl;
  command_inline = omega arith;
  fields_fit = (
    (omega arith, omega arith, i),
    (
      (omega arith, omega arith, decimal-IsInline id),
      ((omega arith, omega arith, a), ((omega arith, omega arith, decimal-IsInline (suc n)), tt)),
    ),
  );
  body_fits = tt;
}

subscribe_message-read :
    (f : Factory) (ack d : Str) (id n : ℕ) (o : OpenSubscriptions)
    → let m = read_message (subscribe_message f ack d id n) (text "SUBSCRIBE") in
      on_command m (header m (text "command")) o ≡ put o (decimal id) d
unfolding subscribe_message subscribe_headers with_receipt put assign has get header to_upper_case
    text_fields frame_fields length_fields body_text body_value truthy to_string new_message
    on_command read_message
subscribe_message-read f [] d id n o = refl
subscribe_message-read f (c ∷ ack) d id n o = refl

-- The SUBSCRIBE frame opens the subscription of its destination.
pub on_client_frame-subscribe_frame :
    (f : Factory) (ack d : Str) (id n : ℕ)
    → IsInline ack
    → IsInline d
    → (s : Str) × ((subscribe_frame ack d id (suc n) f).0 ≡ ok s)
      × ((o : OpenSubscriptions) → on_client_frame s o ≡ put o (decimal id) d)
unfolding subscribe_message build_subscribe_frame build_message
on_client_frame-subscribe_frame f ack d id n a i =
    let (s, p, q) =
      build-frameable (subscribe_message f ack d id n) (text "SUBSCRIBE")
        (subscribe_message-IsFrameable f ack d id n a i) in
    (s, p, λ o. q o ∙ subscribe_message-read f ack d id n o)

unsubscribe_message : Factory → ℕ → ℕ → Message
unsubscribe_message f id n =
    (new_message f Value.undef (unsubscribe_headers (Value.num id) (Value.num (suc n)))).0

unsubscribe_message-IsFrameable :
    (f : Factory) (id n : ℕ) → IsFrameable (unsubscribe_message f id n) (text "UNSUBSCRIBE")
unfolding unsubscribe_message unsubscribe_headers with_receipt put assign has get header
    to_upper_case text_fields frame_fields length_fields body_text body_value truthy to_string
    new_message
unsubscribe_message-IsFrameable f id n = record {
  commanded = refl;
  command_inline = omega arith;
  fields_fit = (
    (omega arith, omega arith, decimal-IsInline id),
    ((omega arith, omega arith, decimal-IsInline (suc n)), tt),
  );
  body_fits = tt;
}

unsubscribe_message-read :
    (f : Factory) (id n : ℕ) (o : OpenSubscriptions)
    → let m = read_message (unsubscribe_message f id n) (text "UNSUBSCRIBE") in
      on_command m (header m (text "command")) o ≡ delete o (decimal id)
unfolding unsubscribe_message unsubscribe_headers with_receipt put assign has get header
    to_upper_case text_fields frame_fields length_fields body_text body_value truthy to_string
    new_message on_command read_message
unsubscribe_message-read f id n o = refl

-- The UNSUBSCRIBE frame ends the subscription.
pub on_client_frame-unsubscribe_frame :
    (f : Factory) (id n : ℕ)
    → (s : Str) × ((unsubscribe_frame id (suc n) f).0 ≡ ok s)
      × ((o : OpenSubscriptions) → on_client_frame s o ≡ delete o (decimal id))
unfolding unsubscribe_message build_unsubscribe_frame build_message
on_client_frame-unsubscribe_frame f id n =
    let (s, p, q) =
      build-frameable (unsubscribe_message f id n) (text "UNSUBSCRIBE")
        (unsubscribe_message-IsFrameable f id n) in
    (s, p, λ o. q o ∙ unsubscribe_message-read f id n o)
