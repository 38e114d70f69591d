-- ===== src/Stomp/Server/Acknowledgment.antt =====
-- channels/dispatchers/stomp.js: what a MESSAGE frame does, from the local handlers to the frame that
-- acknowledges it.

use msgs.Dispatchers.Broadcast.Delivery.{AllEnd, after_all, errors_of_all, dispatch-all, reported}
use msgs.Stomp.Server.{
  handle_message_frame, dispatch_local, acknowledge, acknowledges, after_dispatch, ack_frame,
}
use msgs.Stomp.Dispatcher.Calls.{client}
use msgs.Js.Effect.{continue, out_of_fuel, ok, throw, Outcome}
use msgs.Stomp.Client.{
  build_frame, send_command, send_if_ready, not_ready_error, Client, Outside, Tables,
}
use msgs.Stomp.Commands.{build_ack_frame, build_nack_frame, build_message}
use msgs.Message.{new_message}
use msgs.Base.{◌∙◌, ap}
use msgs.Js.Object.{put, assign}
use msgs.Js.Effect.{Js, pure, throws, ◌>>=◌, ◌>>◌}
use msgs.Js.Text.{Str, str_eq, text}
use msgs.Js.Value.{Value, to_string, to_values, truthy}
use msgs.Base.{Bool, List, [], false, nat_eq, some, true, ℕ, ◌==◌, ◌∷◌, ◌≡◌, refl, sym}
use msgs.Message.{Message, header, Factory}
use msgs.Js.Object.{get}
use msgs.Stomp.Frame.{build}

module _ {H W : Type 0} (ack : Str) (outside : Outside H W) where
  open outside use {deliver}

  -- What a message frame throws when it is acknowledged: the errors of the handlers.
  abbrev pub rethrow : List Value → Js (Client H × W) (Unit {0})
  rethrow [] = pure tt
  rethrow (e ∷ es) = throws (Value.array (to_values (e ∷ es)))

  abbrev pub none_thrown : List Value → Bool
  none_thrown [] = true
  none_thrown (e ∷ es) = false

  -- A frame that is sent while the connection is ready; otherwise it goes to the error channel, and an
  -- error is thrown.
  abbrev pub sent_when : Bool → Str → Js (Client H × W) (Unit {0})
  sent_when true frame = outside.send_output frame
  sent_when false frame = do outside.send_error frame; throws not_ready_error

  -- A new message with this command and this id and no payload is printed as a frame, and sent.
  abbrev pub answer : Str → Value → Js (Client H × W) (Unit {0})
  answer command id (c, w) =
      let (m, f) =
        new_message c.factory Value.undef
          ((text "command", Value.str command) ∷ (text "id", id) ∷ []) in
      continue (sent_when c.ready) (build m) (record c { factory = f }, w)

  -- What an ACK or a NACK frame does.
  abbrev pub verdict : Bool → Str
  verdict true = text "ACK"
  verdict false = text "NACK"

  send_built : (Factory → Outcome Str × Factory) → Js (Client H × W) (Unit {0})
  send_built build = do command ← build_frame build; send_command outside command

  sent_when_ready :
      (q : Bool) (frame : Str) (s : Client H × W)
      → send_if_ready outside frame q s ≡ sent_when q frame s
  unfolding send_if_ready
  sent_when_ready true frame s = refl
  sent_when_ready false frame s = refl

  sent_lem :
      (r : Outcome Str) (c : Client H) (w : W)
      → continue (send_command outside) r (c, w) ≡ continue (sent_when c.ready) r (c, w)
  unfolding send_command
  sent_lem (ok frame) c w = sent_when_ready c.ready frame (c, w)
  sent_lem (throw e) c w = refl
  sent_lem out_of_fuel c w = refl

  send_built-answer :
      (good : Bool) (id : Value) (s : Client H × W)
      → send_built (ack_frame ack outside good id) s ≡ answer (verdict good) id s
  unfolding ack_frame build_ack_frame build_nack_frame build_message send_built put assign
  send_built-answer true id (c, w) =
      let (m, f) =
        new_message c.factory Value.undef
          ((text "command", Value.str (text "ACK")) ∷ (text "id", id) ∷ []) in
      sent_lem (build m) (record c { factory = f }) w
  send_built-answer false id (c, w) =
      let (m, f) =
        new_message c.factory Value.undef
          ((text "command", Value.str (text "NACK")) ∷ (text "id", id) ∷ []) in
      sent_lem (build m) (record c { factory = f }) w

  dispatch_local-all :
      (m : Message) (t : Tables H) (receipt : ℕ) (h : H) (hs : List H) (c : Client H) (w : W)
      → get t.subscriptions (to_string (header m (text "subscription")))
        ≡ some (record { handlers = some (h ∷ hs); receipt = receipt })
      → AllEnd (deliver m) (h ∷ hs) (client t c, w)
      → dispatch_local ack outside m (client t c, w) ≡ (
        reported (deliver m) (errors_of_all (deliver m) (h ∷ hs) (client t c, w)),
        after_all (deliver m) (h ∷ hs) (client t c, w),
      )
  unfolding dispatch_local
  dispatch_local-all m t receipt h hs c w q a =
      rw q (dispatch-all (deliver m) h hs (client t c, w) a)

  then_nothing : (r : Outcome (Unit {0}) × (Client H × W)) → continue (λ _. rethrow []) r.0 r.1 ≡ r
  then_nothing (ok u, s) = refl
  then_nothing (throw v, s) = refl
  then_nothing (out_of_fuel, s) = refl

  after_reported :
      (m : Message) (id : Value) (errors : List Value) (s : Client H × W)
      → truthy id ≡ true
      → (ack == text "auto") ≡ false
      → after_dispatch ack outside id (reported (deliver m) errors) s
        ≡ (do answer (verdict (none_thrown errors)) id; rethrow errors) s
  unfolding after_dispatch acknowledge acknowledges build_ack_frame send_built
  after_reported m id [] s i p =
      rw (i, p) (send_built-answer true id s ∙ sym (then_nothing (answer (text "ACK") id s)))
  after_reported m id (e ∷ es) s i p =
      rw (i, p)
        (ap (λ (r : Outcome (Unit {0}) × (Client H × W)). continue (λ _. rethrow (e ∷ es)) r.0 r.1)
          (send_built-answer false id s))

  -- Under a policy that is not auto, a message frame with an id, for a subscription with at least
  -- one handler, each of which comes to an end: the message is delivered to every handler, in the
  -- order of subscription and whatever the others throw; then the frame of a message with the id
  -- and the command ACK, if no handler threw, and NACK otherwise, is sent, or goes to the error
  -- channel if the connection is no longer ready, and an error is thrown; and then, if sending it
  -- threw nothing, the errors of the handlers are thrown.
  pub handle_message_frame-acknowledges :
      (m : Message) (t : Tables H) (receipt : ℕ) (h : H) (hs : List H) (c : Client H) (w : W)
      → get t.subscriptions (to_string (header m (text "subscription")))
        ≡ some (record { handlers = some (h ∷ hs); receipt = receipt })
      → AllEnd (deliver m) (h ∷ hs) (client t c, w)
      → truthy (header m (text "message-id")) ≡ true
      → (ack == text "auto") ≡ false
      → let errors = errors_of_all (deliver m) (h ∷ hs) (client t c, w) in
        handle_message_frame ack outside m (client t c, w)
        ≡ (do answer (verdict (none_thrown errors)) (header m (text "message-id")); rethrow errors)
            (after_all (deliver m) (h ∷ hs) (client t c, w))
  unfolding handle_message_frame
  handle_message_frame-acknowledges m t receipt h hs c w q a i p =
      rw (dispatch_local-all m t receipt h hs c w q a) (
        after_reported m (header m (text "message-id"))
          (errors_of_all (deliver m) (h ∷ hs) (client t c, w))
          (after_all (deliver m) (h ∷ hs) (client t c, w)) i p)
