-- ===== src/System/Growth/Sending.antt =====
-- msgs.js: a send keeps what its writes and the code of the handlers keep.
use msgs.Base.{
  ℕ, zero, suc, true, none, some, Option-cases, inl, inr, List, refl, ◌≡◌, nat_eq, get_elem?,
}
use msgs.Js.Text.{Str, text}
use msgs.Js.Value.{Value}
use msgs.Js.Object.{Object}
use msgs.Js.Effect.{pure, lift, or_type_error}
use msgs.Js.Preserves.{Preserves, bind-Preserves}
use msgs.Message.{Message, header}
use msgs.Bus.Channel.Preserves.{TapsKeep, send-Preserves}
use msgs.Bus.Kinds.{forward}
use msgs.Dispatchers.Pollable
use msgs.Dispatchers.Pollable.{array_queue}
use msgs.Bus.Handler.{Send, as_value}
use msgs.Bus.Handler.Preserves.{handle-Preserves}
use msgs.Bus.Names.{resolve_channel, resolve_handler, send_through}
use msgs.Bus.Taps.{Taps}
use msgs.Dispatchers.Broadcast
use msgs.Dispatchers.Broadcast.Preserves as BroadcastKeeps
use msgs.Dispatchers.Unicast.Preserves as UnicastKeeps
use msgs.Dispatchers.Exchange.Preserves as ExchangeKeeps
use msgs.Dispatchers.Direct
use msgs.System.{
  System, ChannelState, Dispatcher, noop, broadcast, unicast, direct, pollable, exchange, outer,
  Subscriber, Kind, forwarding, transforming, component_of, read_bus, read_channel, read_handler,
  make_message, Matcher,
}
use msgs.System.Sending.{
  Services, kind_transform, subscriber_component, deliver, dispatch_by, taps_dispatch, wiring_of,
  channel_send, send, topics_of, match_topic, or_missing, enqueue,
}
use msgs.System.Growth.{
  On, IsClosed, make_message-Preserves, or_type_error-Preserves, read_channel-Preserves,
  read_bus-Preserves, read_handler-Preserves,
}

-- What is not of the bus keeps the property.
pub record ServicesKeep {W : Type 0} (services : Services W) (P : System → Type 0) : Type 0 where
  pub transform_keeps :
      (t : ℕ) (m : Message) (o e : Value) → Preserves (On {W = W} P) (services.transform t m o e)
  pub choice_keeps :
      (c : ℕ) (hs : List Subscriber) → Preserves (On {W = W} P) (services.choose c hs)
  pub outer_keeps : (d : ℕ) (m : Message) → Preserves (On {W = W} P) (services.dispatch_outer d m)

module _ {W : Type 0} (services : Services W) (P : System → Type 0) (closed : IsClosed P)
    (keeps : ServicesKeep services P) where
  kind_transform-Preserves :
      (k : Kind) (m : Message) (o e : Value) → Preserves (On P) (kind_transform services k m o e)
  unfolding kind_transform forward
  kind_transform-Preserves forwarding m o e = λ x g. g
  kind_transform-Preserves (transforming t) m o e = keeps.transform_keeps t m o e

  match_topic-Preserves :
      (matcher : Matcher) (t : Str) (v : Value)
      → Preserves (On P) (match_topic services matcher t v)
  unfolding match_topic
  match_topic-Preserves Matcher.literal t v = λ x g. g
  match_topic-Preserves Matcher.topical t v = λ (u, w) g. closed.cache_closed u _ g

  module _ (send : ℕ → Send (System × W))
      (send_keeps : (b : ℕ) (to payload : Value) (headers : Object Value)
        → Preserves (On P) (send b to payload headers))
      (n : ℕ) where
    deliver-Preserves :
        (b : ℕ) (m : Message) (h : Subscriber) → Preserves (On P) (deliver services send n b m h)
    unfolding deliver
    deliver-Preserves b m h (t, w) =
        bind-Preserves (On P) (lift (resolve_handler (suc n) t.names b (subscriber_component h))) _
          (λ x g. g)
          (λ found.
            bind-Preserves (On P) (or_type_error found) _ (or_type_error-Preserves P found) (λ h.
              bind-Preserves (On P) (read_handler h) _ (read_handler-Preserves P h) (λ state.
                handle-Preserves (On P) (send state.bus) (send_keeps state.bus)
                  (kind_transform services state.kind) (kind_transform-Preserves state.kind)
                  state.output state.error m Value.undef)))
          (t, w)

    -- A message for a queue is stored on its channel.
    enqueue-Preserves :
        (c : ℕ) (state : ChannelState) (m : Message) (queue : List Message) (t : System) (w : W)
        → get_elem? t.channels c ≡ some state
        → On P (t, w)
        → On P (enqueue services c state (Pollable.dispatch array_queue m queue) (t, w)).1
    enqueue-Preserves c state m queue t w p g = closed.channel_closed t c state _ g p refl

    dispatch_by-Preserves :
        (c : ℕ) (state : ChannelState) (m : Message) (d : Dispatcher) (t : System) (w : W)
        → get_elem? t.channels c ≡ some state
        → On P (t, w)
        → On P (dispatch_by services send n c state m d (t, w)).1
    unfolding dispatch_by Direct.dispatch
    dispatch_by-Preserves c state m noop t w p g = g
    dispatch_by-Preserves c state m (broadcast hs) t w p g =
        BroadcastKeeps.dispatch-Preserves (On P) _ (deliver-Preserves state.bus m) hs (t, w) g
    dispatch_by-Preserves c state m (unicast hs) t w p g =
        UnicastKeeps.dispatch-Preserves (On P) _ (services.choose c)
          (λ o. deliver-Preserves state.bus m (or_missing o)) (keeps.choice_keeps c) hs (t, w) g
    dispatch_by-Preserves c state m (direct h) t w p g =
        bind-Preserves (On P) (deliver services send n state.bus m h) (λ _. pure true)
          (deliver-Preserves state.bus m h) (λ _ x g. g) (t, w) g
    dispatch_by-Preserves c state m (pollable queue) t w p g =
        enqueue-Preserves c state m queue t w p g
    dispatch_by-Preserves c state m (exchange matcher topics) t w p g =
        ExchangeKeeps.dispatch-Preserves (On P) (topics_of services c)
          (match_topic services matcher)
          (λ hs. Broadcast.dispatch (deliver services send n state.bus m) hs)
          (match_topic-Preserves matcher)
          (λ hs. BroadcastKeeps.dispatch-Preserves (On P) _ (deliver-Preserves state.bus m) hs)
          (header m (text "topic")) (t, w) g
    dispatch_by-Preserves c state m (outer d) t w p g = keeps.outer_keeps d m (t, w) g

    taps-Keep :
        (b : ℕ) (taps : Taps Subscriber)
        → TapsKeep (On {W = W} P) (taps_dispatch services send n b taps)
    taps-Keep b none = tt
    taps-Keep b (some hs) =
        λ m. BroadcastKeeps.dispatch-Preserves (On P) _ (deliver-Preserves b m) hs

    pub wiring-dispatch-Preserves :
        (c : ℕ) (state : ChannelState) (d i : ℕ) (m : Message)
        → Preserves (On P) ((wiring_of services send n c state d i).dispatch m)
    unfolding wiring_of
    wiring-dispatch-Preserves c state d i m (t, w) g =
        elim (Option-cases (get_elem? t.channels c)) [
          | inl p ↦ rw p g
          | inr (now, p) ↦ rw p (dispatch_by-Preserves c now m now.dispatcher t w p g)
        ]

    pub wiring-taps-Keep :
        (c : ℕ) (state : ChannelState) (d i : ℕ)
        → TapsKeep (On {W = W} P) (wiring_of services send n c state d i).dispatch_taps
    unfolding wiring_of
    wiring-taps-Keep c state d i = taps-Keep state.bus state.taps

    pub wiring-send-Preserves :
        (c : ℕ) (state : ChannelState) (d i e : ℕ) (m : Message) (headers : Object Value)
        → Preserves (On P) ((wiring_of services send n c state d i).send_to e m headers)
    unfolding wiring_of
    wiring-send-Preserves c state d i e m headers =
        send_keeps state.bus (Value.channel_ref e) (as_value m) headers

    pub channel_send-Preserves :
        (c : ℕ) (m : Message) → Preserves (On P) (channel_send services send n c m)
    unfolding channel_send
    channel_send-Preserves c m =
        bind-Preserves (On P) (read_channel c) _ (read_channel-Preserves P c) (λ state.
          bind-Preserves (On P) (read_bus state.bus) _ (read_bus-Preserves P state.bus) (λ bus.
            let d = bus.dead_letter_channel in
            let i = bus.invalid_message_channel in
            send-Preserves (On P) (wiring_of services send n c state d i)
              (wiring-taps-Keep c state d i) (wiring-dispatch-Preserves c state d i)
              (wiring-send-Preserves c state d i) m))

  pub send-Keeps :
      (n b : ℕ) (to payload : Value) (headers : Object Value)
      → Preserves (On P) (send services n b to payload headers)
  unfolding send
  send-Keeps zero b to payload headers = λ x g. g
  send-Keeps (suc n) b to payload headers =
      bind-Preserves (On P) (lift (component_of to)) _ (λ x g. g)
        (λ target (t, w).
          bind-Preserves (On P) (lift (resolve_channel (suc n) t.names b target)) _ (λ y g. g)
            (λ found.
              bind-Preserves (On P) (or_type_error found) _ (or_type_error-Preserves P found) (λ ch.
                bind-Preserves (On P) (make_message b payload headers) _
                  (make_message-Preserves P closed b payload headers)
                  (λ m.
                    channel_send-Preserves (send services n) (send-Keeps n) n (send_through ch m).0
                      (send_through ch m).1)))
            (t, w))
