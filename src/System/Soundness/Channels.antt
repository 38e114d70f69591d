-- ===== src/System/Soundness/Channels.antt =====
-- msgs.js: subscriptions, taps and queues keep the program sound.
use msgs.Base.{ℕ, some, Option, Option-cases, inl, inr, List, ◌≡◌, refl, nat_eq, get_elem?}
use msgs.Js.Value.{Value}
use msgs.Js.Effect.{Outcome, ok, throw, out_of_fuel, lift, ◌>>=◌}
use msgs.Js.Preserves.{Preserves, bind-Preserves}
use msgs.Message.{Message}
use msgs.Bus.Names.{Channel}
use msgs.Bus.Taps.{Taps}
use msgs.Bus.Taps
use msgs.Dispatchers.Subscribable
use msgs.Dispatchers.Subscribable.{Handlers}
use msgs.Dispatchers.Exchange
use msgs.Dispatchers.Exchange.{Topics}
use msgs.Dispatchers.Pollable
use msgs.System.{
  System, Run, ChannelState, Dispatcher, noop, broadcast, unicast, direct, pollable, exchange,
  outer, Subscriber, missing, Matcher, subscriber_eq, read_channel,
}
use msgs.System.Growth.{Grows, Grows-trans, On, or_type_error-Preserves}
use msgs.System.Sending.{Services}
use msgs.System.Subscribing.{
  write_handlers, write_topics, write_taps, tap_by, untap_by, tap, untap, resolve, shifted,
  receive_by, receive, subscribe_by, unsubscribe_by, subscribe_channel, unsubscribe_channel,
  subscribe, unsubscribe, method_through, topic_key,
}
use msgs.System.Soundness.{IsSound}
use msgs.System.Soundness.Writes.{Stays, Stays-IsClosed}

-- The code outside keeps a sound program sound, and removes no bus and no channel.
abbrev pub Evolves : {W A : Type 0} → Run W A → Type 0
Evolves {W} m = (s : System) (w : W) → (IsSound s → IsSound (m (s, w)).1.0) × Grows s (m (s, w)).1.0

pub record IsConsiderate {W : Type 0} (services : Services W) : Type 0 where
  pub transforms : (t : ℕ) (m : Message) (o e : Value) → Evolves (services.transform t m o e)
  pub chooses : (c : ℕ) (hs : List Subscriber) → Evolves (services.choose c hs)
  pub dispatches : (d : ℕ) (m : Message) → Evolves (services.dispatch_outer d m)
  pub subscribes : (d : ℕ) (h k : Subscriber) → Evolves (services.subscribe_outer d h k)
  pub unsubscribes : (d : ℕ) (h k : Subscriber) → Evolves (services.unsubscribe_outer d h k)
  pub destroys : (d : ℕ) → Evolves (services.destroy_outer d)

pub Evolves-Stays :
    {W A : Type 0} (s : System) (m : Run W A) → Evolves m → Preserves (On (Stays s)) m
Evolves-Stays s m e (t, w) h = ((e t w).0 h.0, Grows-trans s t (m (t, w)).1.0 h.1 (e t w).1)

pub evolution-Grows :
    {W A : Type 0} (s : System) (m : Run W A) → Evolves m → Preserves (On (Grows s)) m
evolution-Grows s m e (t, w) h = Grows-trans s t (m (t, w)).1.0 h (e t w).1

module _ {W : Type 0} (s : System) where
  -- What is done with a channel that is there.
  pub reading-Stays :
      {A : Type 0} (c : ℕ) (f : ChannelState → Run W A)
      → ((t : System) (w : W) (now : ChannelState)
          → get_elem? t.channels c ≡ some now
          → Stays s t
          → Stays s (f now (t, w)).1.0)
      → Preserves (On (Stays s)) (read_channel c >>= f)
  reading-Stays c f keeps (t, w) h = elim (Option-cases (get_elem? t.channels c)) [
    | inl p ↦ rw p h
    | inr (now, p) ↦ rw p (keeps t w now p h)
  ]

  module _ (t : System) (w : W) (c : ℕ) (now : ChannelState) (p : get_elem? t.channels c ≡ some now)
      (h : Stays s t) where
    pub write_handlers-Stays :
        (make : Handlers Subscriber → Dispatcher) (r : Outcome (Handlers Subscriber))
        → Stays s (write_handlers c now make r (t, w)).1.0
    write_handlers-Stays make (ok hs) = (Stays-IsClosed s).channel_closed t c now _ h p refl
    write_handlers-Stays make (throw e) = h
    write_handlers-Stays make out_of_fuel = h

    pub write_topics-Stays :
        (m : Matcher) (r : Outcome (Unit {0}) × Topics (Handlers Subscriber))
        → Stays s (write_topics c now m r (t, w)).1.0
    write_topics-Stays m (r, ts) = (Stays-IsClosed s).channel_closed t c now _ h p refl

    write_taps-Stays : (r : Outcome (Taps Subscriber)) → Stays s (write_taps c now r (t, w)).1.0
    write_taps-Stays (ok taps) = (Stays-IsClosed s).channel_closed t c now _ h p refl
    write_taps-Stays (throw e) = h
    write_taps-Stays out_of_fuel = h

    pub tap_by-Stays : (d : Dispatcher) (k : Subscriber) → Stays s (tap_by c now d k (t, w)).1.0
    unfolding tap_by
    tap_by-Stays noop k = h
    tap_by-Stays (broadcast hs) k = write_taps-Stays (Taps.tap now.taps k)
    tap_by-Stays (unicast hs) k = write_taps-Stays (Taps.tap now.taps k)
    tap_by-Stays (direct x) k = write_taps-Stays (Taps.tap now.taps k)
    tap_by-Stays (pollable queue) k = write_taps-Stays (Taps.tap now.taps k)
    tap_by-Stays (exchange m ts) k = write_taps-Stays (Taps.tap now.taps k)
    tap_by-Stays (outer x) k = write_taps-Stays (Taps.tap now.taps k)

    pub untap_by-Stays : (d : Dispatcher) (k : Subscriber) → Stays s (untap_by c now d k (t, w)).1.0
    unfolding untap_by
    untap_by-Stays noop k = h
    untap_by-Stays (broadcast hs) k = write_taps-Stays (Taps.untap now.taps k)
    untap_by-Stays (unicast hs) k = write_taps-Stays (Taps.untap now.taps k)
    untap_by-Stays (direct x) k = write_taps-Stays (Taps.untap now.taps k)
    untap_by-Stays (pollable queue) k = write_taps-Stays (Taps.untap now.taps k)
    untap_by-Stays (exchange m ts) k = write_taps-Stays (Taps.untap now.taps k)
    untap_by-Stays (outer x) k = write_taps-Stays (Taps.untap now.taps k)

    shifted-Stays :
        (r : Outcome (Option Message) × List Message) → Stays s (shifted c now r (t, w)).1.0
    shifted-Stays (ok m, queue) = (Stays-IsClosed s).channel_closed t c now _ h p refl
    shifted-Stays (throw e, queue) = (Stays-IsClosed s).channel_closed t c now _ h p refl
    shifted-Stays (out_of_fuel, queue) = (Stays-IsClosed s).channel_closed t c now _ h p refl

    pub receive_by-Stays : (d : Dispatcher) → Stays s (receive_by c now d (t, w)).1.0
    unfolding receive_by
    receive_by-Stays noop = h
    receive_by-Stays (broadcast hs) = h
    receive_by-Stays (unicast hs) = h
    receive_by-Stays (direct x) = h
    receive_by-Stays (pollable queue) = shifted-Stays (Pollable.receive Pollable.array_queue queue)
    receive_by-Stays (exchange m ts) = h
    receive_by-Stays (outer x) = h

  pub resolve-Stays : (n b : ℕ) (from : Value) → Preserves (On (Stays s)) (resolve {W = W} n b from)
  unfolding resolve
  resolve-Stays n b from =
      bind-Preserves (On (Stays s)) (lift (msgs.System.component_of from)) _ (λ x h. h)
        (λ target (t, w).
          bind-Preserves (On (Stays s)) (lift (msgs.Bus.Names.resolve_channel n t.names b target)) _
            (λ x h. h) (or_type_error-Preserves (Stays s)) (t, w))

  pub tap-Stays :
      (n b : ℕ) (to : Value) (k : Subscriber) → Preserves (On (Stays s)) (tap {W = W} n b to k)
  unfolding tap
  tap-Stays n b to k =
      bind-Preserves (On (Stays s)) (resolve n b to) _ (resolve-Stays n b to) (λ ch.
        reading-Stays (method_through ch (k, missing)).0 _ (λ t w now p h.
          tap_by-Stays t w (method_through ch (k, missing)).0 now p h now.dispatcher k))

  pub untap-Stays :
      (n b : ℕ) (to : Value) (k : Subscriber) → Preserves (On (Stays s)) (untap {W = W} n b to k)
  unfolding untap
  untap-Stays n b to k =
      bind-Preserves (On (Stays s)) (resolve n b to) _ (resolve-Stays n b to) (λ ch.
        reading-Stays (method_through ch (k, missing)).0 _ (λ t w now p h.
          untap_by-Stays t w (method_through ch (k, missing)).0 now p h now.dispatcher k))

  pub receive-Stays :
      (n b : ℕ) (target : Value) → Preserves (On (Stays s)) (receive {W = W} n b target)
  unfolding receive
  receive-Stays n b target =
      bind-Preserves (On (Stays s)) (resolve n b target) _ (resolve-Stays n b target) (λ ch.
        reading-Stays (method_through ch (missing, missing)).0 _ (λ t w now p h.
          receive_by-Stays t w (method_through ch (missing, missing)).0 now p h now.dispatcher))

module _ {W : Type 0} (services : Services W) (kind : IsConsiderate services) (s : System) where
  subscribe_by-Stays :
      (c : ℕ) (t : System) (w : W) (now : ChannelState)
      → get_elem? t.channels c ≡ some now
      → Stays s t
      → (d : Dispatcher) (h k : Subscriber) → Stays s (subscribe_by services c now d h k (t, w)).1.0
  unfolding subscribe_by
  subscribe_by-Stays c t w now p g noop h k = g
  subscribe_by-Stays c t w now p g (broadcast hs) h k =
      write_handlers-Stays s t w c now p g broadcast (Subscribable.subscribe hs h)
  subscribe_by-Stays c t w now p g (unicast hs) h k =
      write_handlers-Stays s t w c now p g unicast (Subscribable.subscribe hs h)
  subscribe_by-Stays c t w now p g (direct x) h k = g
  subscribe_by-Stays c t w now p g (pollable queue) h k = g
  subscribe_by-Stays c t w now p g (exchange m ts) h k =
      write_topics-Stays s t w c now p g m
        (Exchange.subscribe Exchange.subscribable_topics (topic_key h) k ts)
  subscribe_by-Stays c t w now p g (outer d) h k =
      Evolves-Stays s (services.subscribe_outer d h k) (kind.subscribes d h k) (t, w) g

  unsubscribe_by-Stays :
      (c : ℕ) (t : System) (w : W) (now : ChannelState)
      → get_elem? t.channels c ≡ some now
      → Stays s t
      → (d : Dispatcher) (h k : Subscriber)
      → Stays s (unsubscribe_by services c now d h k (t, w)).1.0
  unfolding unsubscribe_by
  unsubscribe_by-Stays c t w now p g noop h k = g
  unsubscribe_by-Stays c t w now p g (broadcast hs) h k =
      write_handlers-Stays s t w c now p g broadcast (Subscribable.unsubscribe hs h)
  unsubscribe_by-Stays c t w now p g (unicast hs) h k =
      write_handlers-Stays s t w c now p g unicast (Subscribable.unsubscribe hs h)
  unsubscribe_by-Stays c t w now p g (direct x) h k = g
  unsubscribe_by-Stays c t w now p g (pollable queue) h k = g
  unsubscribe_by-Stays c t w now p g (exchange m ts) h k =
      write_topics-Stays s t w c now p g m
        (Exchange.unsubscribe Exchange.subscribable_topics (topic_key h) k ts)
  unsubscribe_by-Stays c t w now p g (outer d) h k =
      Evolves-Stays s (services.unsubscribe_outer d h k) (kind.unsubscribes d h k) (t, w) g

  subscribe_channel-Stays :
      (ch : Channel) (h : Subscriber) → Preserves (On (Stays s)) (subscribe_channel services ch h)
  unfolding subscribe_channel
  subscribe_channel-Stays ch h =
      reading-Stays s (method_through ch (h, missing)).0 _ (λ t w now p g.
        subscribe_by-Stays (method_through ch (h, missing)).0 t w now p g now.dispatcher
          (method_through ch (h, missing)).1 (method_through ch (h, missing)).2)

  pub subscribe-Stays :
      (n b : ℕ) (from : Value) (h : Subscriber)
      → Preserves (On (Stays s)) (subscribe services n b from h)
  unfolding subscribe
  subscribe-Stays n b from h =
      bind-Preserves (On (Stays s)) (resolve n b from) _ (resolve-Stays s n b from)
        (λ ch. subscribe_channel-Stays ch h)

  pub unsubscribe-Stays :
      (n b : ℕ) (from : Value) (h : Subscriber)
      → Preserves (On (Stays s)) (unsubscribe services n b from h)
  unfolding unsubscribe unsubscribe_channel
  unsubscribe-Stays n b from h =
      bind-Preserves (On (Stays s)) (resolve n b from) _ (resolve-Stays s n b from) (λ ch.
        reading-Stays s (method_through ch (h, missing)).0 _ (λ t w now p g.
          unsubscribe_by-Stays (method_through ch (h, missing)).0 t w now p g now.dispatcher
            (method_through ch (h, missing)).1 (method_through ch (h, missing)).2))
