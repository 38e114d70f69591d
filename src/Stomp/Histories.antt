-- ===== src/Stomp/Histories.antt =====
-- channels/dispatchers/stomp.js: histories of calls of the dispatcher and of frames of the server.

use msgs.Js.Value.{Value}
use msgs.Js.Effect.{lift, pure, catching}
use msgs.Js.Preserves.{Preserves, bind-Preserves, catching-Preserves}
use msgs.Js.Text.{Str, text, str_eq}
use msgs.Message.{Factory, Message}
use msgs.Stomp.Client.{Client, Outside, send_command, set_ready, build_frame, frame, initial}
use msgs.Stomp.Commands.{build_send_frame, build_disconnect_frame}
use msgs.Stomp.Dispatcher
use msgs.Stomp.Dispatcher.{subscribe, unsubscribe, dispatch, destroy}
use msgs.Stomp.Dispatcher.Safety.{
  Holds, IsRespectful, send_command-Preserves, subscribe-Preserves, unsubscribe-Preserves,
}
use msgs.Stomp.Server.{on_server_frame}
use msgs.Stomp.Server.Safety.{on_server_frame-Preserves}
use msgs.Js.Object.{get}
use msgs.Base.{Bool, Eq, List, [], ◌∷◌, none, true, false, nat_eq}

-- What reaches the dispatcher from outside.
pub data Call (H : Type 0) : Type 0 where
  subscribes unsubscribes : Str → H → Call H
  dispatches : Message → Call H
  receives : Value → Call H
  destroys : Call H

module _ {H W : Type 0} ⦃e : Eq H⦄ (ack : Str) (outside : Outside H W) where
  -- The state after a call, whether it returns or throws.
  unfoldable pub after_call : Call H → Client H × W → Client H × W
  after_call (subscribes d h) s = (subscribe ack outside d h s).1
  after_call (unsubscribes d h) s = (unsubscribe ack outside d h s).1
  after_call (dispatches m) s = (dispatch ack outside m s).1
  after_call (receives v) s = (on_server_frame ack outside v s).1
  after_call destroys s = (destroy ack outside s).1

  unfoldable pub after_calls : List (Call H) → Client H × W → Client H × W
  after_calls [] s = s
  after_calls (c ∷ cs) s = after_calls cs (after_call c s)

  module _ (r : IsRespectful outside) where
    dispatch-Preserves : (m : Message) → Preserves Holds (dispatch ack outside m)
    unfolding dispatch
    dispatch-Preserves m =
        bind-Preserves Holds (lift (build_send_frame m Value.undef)) _ (λ s p. p)
          (λ command.
            bind-Preserves Holds (send_command outside command) (λ _. pure true)
              (send_command-Preserves outside r command) (λ _ s p. p))

    disconnect-Preserves : (b : Bool) → Preserves Holds (Dispatcher.disconnect ack outside b)
    unfolding Dispatcher.disconnect
    disconnect-Preserves false = λ s p. p
    disconnect-Preserves true =
        bind-Preserves Holds (build_frame (λ f. build_disconnect_frame f Value.undef)) _ (λ s p. p)
          (λ command.
            bind-Preserves Holds (send_command outside command) _
              (send_command-Preserves outside r command)
              (λ _.
                bind-Preserves Holds (set_ready false)
                  (λ _. outside.control (text "disconnected") (frame command)) (λ s p. p)
                  (λ _. r.notice (text "disconnected") (frame command))))

    destroy-Preserves : Preserves Holds (destroy ack outside)
    unfolding destroy
    destroy-Preserves (c, w) p =
        bind-Preserves Holds (catching (Dispatcher.disconnect ack outside c.ready) (λ v. pure tt))
          (λ _. outside.destroy_control)
          (catching-Preserves Holds (Dispatcher.disconnect ack outside c.ready) (λ v. pure tt)
            (disconnect-Preserves c.ready) (λ v s q. q))
          (λ _. r.destruction) (record c { tables = none }, w) tt

    after_call-Holds : (call : Call H) (s : Client H × W) → Holds s → Holds (after_call call s)
    unfolding after_call
    after_call-Holds (subscribes d h) s p = subscribe-Preserves outside r ack d h s p
    after_call-Holds (unsubscribes d h) s p = unsubscribe-Preserves outside r ack d h s p
    after_call-Holds (dispatches m) s p = dispatch-Preserves m s p
    after_call-Holds (receives v) s p = on_server_frame-Preserves ack outside r v s p
    after_call-Holds destroys s p = destroy-Preserves s p

    after_calls_from-Holds :
        (calls : List (Call H)) (s : Client H × W) → Holds s → Holds (after_calls calls s)
    unfolding after_calls
    after_calls_from-Holds [] s p = p
    after_calls_from-Holds (c ∷ cs) s p =
        after_calls_from-Holds cs (after_call c s) (after_call-Holds c s p)

    initial-Holds : (f : Factory) (w : W) → Holds (initial {H = H} f, w)
    unfolding get
    initial-Holds f w = record {
      subscriptions_distinct = tt;
      destinations_distinct = tt;
      below = λ d id p. absurd (cc p);
      served = λ d id p. absurd (cc p);
      alone = λ d d' id p q. absurd (cc p);
      known = λ k s p. absurd (cc p);
    }

    -- Whatever calls and frames of the server reach a new dispatcher, in whatever order, and whatever
    -- of them throws: until it is destroyed, every destination has a subscription id that no other
    -- destination has and a local dispatcher under that id, in which at least one handler is left and
    -- none is listed twice; and there are no other local dispatchers. The code that the dispatcher
    -- calls may call it again, as long as that code keeps the same.
    pub after_calls-Holds :
        (calls : List (Call H)) (f : Factory) (w : W) → Holds (after_calls calls (initial f, w))
    after_calls-Holds calls f w = after_calls_from-Holds calls (initial f, w) (initial-Holds f w)
