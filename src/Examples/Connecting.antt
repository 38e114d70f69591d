-- ===== src/Examples/Connecting.antt =====
-- A STOMP connection with two destinations, handlers that are numbers, and a server that listens.

use msgs.Base.{nat_eq, eqb, false, if◌then◌else◌, some, true, ◌++◌}
use msgs.Stomp.Dispatcher.{subscribe}
use msgs.Stomp.Server.{handle_message_frame}
use msgs.Stomp.Server.Acknowledgment.{answer, rethrow, handle_message_frame-acknowledges}
use msgs.Dispatchers.Broadcast.Delivery.{errors_of_all, after_all}
use msgs.Stomp.Dispatcher.Safety.{Holds}
use msgs.Stomp.Client.{Outside, Tables, initial, not_ready_error}
use msgs.Stomp.Dispatcher.Agreement.{served_by, connected, Agrees}
use msgs.Stomp.Dispatcher.Safety.{IsRespectful}
use msgs.Stomp.Histories.{subscribes, unsubscribes, receives, after_calls, Call, after_calls-Holds}
use msgs.Stomp.Requests.{after_calls-Agrees, no_tables}
use msgs.Base.{List, [], arith, refl, ℕ, ◌∷◌, ◌≡◌}
use msgs.Js.Text.{text, Str}
use msgs.Message.{Factory, Message, header}
use msgs.Js.Value.{Value, to_string, truthy}
use msgs.Stomp.Client.{normalize_ack}
use msgs.Js.Effect.{ok, pure, throw, throws, ◌>>◌}
use msgs.Js.Object.{get}
use msgs.Stomp.Dispatcher.Unready.{subscribe-subscribe_unready}

abbrev bus : Factory
bus = record { bus_id = 0; next_message = 1 }

-- Two handlers share /a and leave it, and a third one stays at /b.
abbrev visits : List (Call ℕ)
visits =
    subscribes (text "/a") 7
    ∷ subscribes (text "/b") 8
    ∷ subscribes (text "/a") 9
    ∷ unsubscribes (text "/a") 7
    ∷ unsubscribes (text "/a") 9
    ∷ []

after_calls-Agrees_example : Agrees (
    after_calls
      (normalize_ack (Value.str (text "client")))
      served_by
      visits
      (connected no_tables 0 bus, []))
after_calls-Agrees_example =
    after_calls-Agrees (Value.str (text "client")) visits bus
      (omega arith, (omega arith, (omega arith, (tt, (tt, tt)))))

served_by-IsRespectful : IsRespectful (served_by {H = ℕ})
served_by-IsRespectful = record {
  output = λ s w p. p;
  error = λ s w p. p;
  notice = λ s p w q. q;
  destruction = λ w p. p;
  delivery = λ m h w p. p;
}

-- A subscribe that throws, since the connection is not open yet; the server's CONNECTED; and again.
abbrev opening : List (Call ℕ)
opening =
    subscribes (text "/a") 7
    ∷ receives (Value.str (text "CONNECTED" ++ 10 ∷ 10 ∷ 0 ∷ []))
    ∷ subscribes (text "/a") 8
    ∷ subscribes (text "/b") 8
    ∷ unsubscribes (text "/b") 8
    ∷ []

after_calls-Holds_example : Holds (after_calls (text "client") served_by opening (initial bus, []))
after_calls-Holds_example =
    after_calls-Holds (text "client") served_by served_by-IsRespectful opening bus []

subscribe-subscribe_unready_example :
    let (r, (c, o)) =
      subscribe {H = ℕ}
        (text "auto")
        served_by
        (text "/a")
        7
        (record { tables = some no_tables; ready = false; counter = 0; factory = bus }, []) in
    (r ≡ throw not_ready_error)
    × (o ≡ [])
    × (let again =
          subscribe {H = ℕ} (text "auto") served_by (text "/a") 8 (record c { ready = true }, o) in
        (again.0 ≡ ok tt) × (again.1.1 ≡ []))
unfolding get
subscribe-subscribe_unready_example =
    subscribe-subscribe_unready (text "auto") (text "/a") 7 8 no_tables 0 bus [] refl

-- The subscription 5 has two handlers, of which the first throws; what is sent is kept.
abbrev listening : Outside ℕ (List Str)
listening = record {
  send_output = λ s w. (ok tt, (w.0, s ∷ w.1));
  send_error = λ s. pure tt;
  control = λ s p. pure tt;
  destroy_control = pure tt;
  deliver = λ m h. if eqb h 7 then throws (Value.num 7) else pure tt;
}

abbrev delivered : Message
delivered = record {
  payload = Value.undef;
  headers =
      (text "subscription", Value.str (text "5")) ∷ (text "message-id", Value.str (text "m")) ∷ [];
}

abbrev subscribers : Tables ℕ
subscribers = record {
  subscriptions = (text "5", record { handlers = some (7 ∷ 8 ∷ []); receipt = 6 }) ∷ [];
  destinations = (text "/a", 5) ∷ [];
  receipts = [];
}

handle_message_frame-acknowledges_example :
    handle_message_frame (text "client") listening delivered (connected subscribers 7 bus, [])
    ≡ (do
      answer (text "client") listening (text "NACK") (Value.str (text "m"))
      rethrow (text "client") listening (Value.num 7 ∷ []))
        (connected subscribers 7 bus, [])
unfolding get header truthy to_string errors_of_all after_all
handle_message_frame-acknowledges_example =
    handle_message_frame-acknowledges (text "client") listening delivered subscribers 6 7 (8 ∷ [])
      (connected subscribers 7 bus) [] refl ((λ p. absurd (cc p)), ((λ p. absurd (cc p)), tt)) refl
      refl
