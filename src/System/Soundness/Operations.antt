-- ===== src/System/Soundness/Operations.antt =====
-- msgs.js: names, channels, handlers, buses, sends and `destroy` keep the program sound.
use msgs.Base.{
  ℕ, zero, suc, none, some, inl, inr, [], ◌∷◌, ◌++◌, ◌≡◌, refl, nat_eq, get_elem?, length, true,
  false, Bool, if◌then◌else◌,
}
use msgs.Js.Text.{Str, str_eq}
use msgs.Js.Value.{Value, truthy}
use msgs.Js.Object.{get, keys}
use msgs.Js.Effect.{Outcome-cases, pure, or_type_error, for_each, ◌>>=◌}
use msgs.Js.Preserves.{Preserves, bind-Preserves, for_each-Preserves}
use msgs.Bus.Names.{Component, channel, handler, named, exported, alias, bus_at}
use msgs.Bus.Names.Keeps.{length-alias, length-set_components}
use msgs.Dispatchers.Exchange
use msgs.System.{
  System, BusState, ChannelState, HandlerState, Dispatcher, noop, broadcast, unicast, direct,
  pollable, exchange, outer, by_ref, subscriber_eq, Kind, read_bus, new_channel, alias_if_named,
  set_names,
}
use msgs.System.Places.{get-set_at_self, get-append}
use msgs.System.Growth.{On, or_type_error-Preserves, read_bus-Preserves}
use msgs.System.Growth.Sending.{ServicesKeep}
use msgs.System.Sending.{Services}
use msgs.System.Factories.{new_handler, new_bus}
use msgs.System.Subscribing.{subscribe}
use msgs.System.Construction.{with_child, child_state, construct_bus-with_child}
use msgs.System.Destroying.{
  destroy_dispatcher, destroy_channel, destroy_component, destroy_name, destroy_own, destroy,
  delete_component, read_component, channel_under, untapped,
}
use msgs.System.Soundness.{HasBus}
use msgs.System.Soundness.Writes.{
  Stays, Stays-IsClosed, names_written, handlers_written, channel_added, child_added, child_pushed,
}
use msgs.System.Soundness.Channels.{
  IsConsiderate, Evolves-Stays, reading-Stays, write_topics-Stays, subscribe-Stays,
}

module _ {W : Type 0} (s : System) where
  -- `alias`, of a name that may be empty
  pub alias-Stays :
      (n b : ℕ) (name : Str) (x : Component) (t : System) (w : W)
      → Stays s t
      → Stays s (set_names (alias n t.names b name x) (t, w)).1.0
  alias-Stays n b name x t w h = elim (Outcome-cases (alias n t.names b name x)) [
    | inl (names, p) ↦ rw p (names_written s t h names (length-alias n t.names names b name x p))
    | inr (inl (e, p)) ↦ rw p h
    | inr (inr p) ↦ rw p h
  ]

  alias_if_named-Stays :
      (n b : ℕ) (name : Str) (x : Component)
      → Preserves (On (Stays s)) (alias_if_named {W = W} n b name x)
  alias_if_named-Stays n b [] x (t, w) h = h
  alias_if_named-Stays n b (c ∷ name) x (t, w) h = alias-Stays n b (c ∷ name) x t w h

  pub new_channel-Stays :
      (n b : ℕ) (name : Str) (d : Dispatcher) (type : Str) (t : System) (w : W)
      → HasBus t b
      → Stays s t
      → Stays s (new_channel n b name d type (t, w)).1.0
  unfolding new_channel
  new_channel-Stays n b name d type t w has_bus h =
      bind-Preserves (On (Stays s)) (alias_if_named n b name _) _ (alias_if_named-Stays n b name _)
        (λ _ x g. g) _
        (channel_added s t h (record { bus = b; dispatcher = d; taps = none; type = type }) has_bus)

module _ {W : Type 0} (services : Services W) (kind : IsConsiderate services) (s : System) where
  pub services-Keep : ServicesKeep services (Stays s)
  services-Keep = record {
    transform_keeps =
        λ t m o e. Evolves-Stays s (services.transform t m o e) (kind.transforms t m o e);
    choice_keeps = λ c hs. Evolves-Stays s (services.choose c hs) (kind.chooses c hs);
    outer_keeps = λ d m. Evolves-Stays s (services.dispatch_outer d m) (kind.dispatches d m);
  }

  subscribe_if_given-Stays :
      (n b : ℕ) (v : Value) (h : ℕ) (q : Bool)
      → Preserves (On (Stays s)) (if q then subscribe services n b v (by_ref h) else pure tt)
  subscribe_if_given-Stays n b v h true = subscribe-Stays services kind s n b v (by_ref h)
  subscribe_if_given-Stays n b v h false = λ x g. g

  pub new_handler-Stays :
      (n b : ℕ) (name : Str) (k : Kind) (output input error : Value)
      → Preserves (On (Stays s)) (new_handler services n b name k output input error)
  unfolding new_handler
  new_handler-Stays n b name k output input error (t, w) g =
      let h = length t.handlers in
      let state : HandlerState = record { bus = b; kind = k; output = output; error = error } in
      let subscribed = if truthy input then subscribe services n b input (by_ref h) else pure tt in
      bind-Preserves (On (Stays s)) (alias_if_named n b name (handler h))
        (λ _. subscribed >>= λ _. pure h) (alias_if_named-Stays s n b name (handler h))
        (λ _.
          bind-Preserves (On (Stays s)) subscribed (λ _. pure h)
            (subscribe_if_given-Stays n b input h (truthy input)) (λ _ x g. g))
        (record t { handlers = t.handlers ++ state ∷ [] }, w)
        (handlers_written s t g (t.handlers ++ state ∷ []))

  -- A bus without a `config`, made by the bus `p`.
  pub new_bus-Stays :
      (n p : ℕ) (parent : BusState) (t : System) (w : W)
      → get_elem? t.buses p ≡ some parent
      → Stays s t
      → Stays s (new_bus services (suc n) p (λ b. pure tt) (t, w)).1.0
  unfolding new_bus with_child
  new_bus-Stays n p parent t w found h =
      rw
        (
          construct_bus-with_child services t w n p parent h.0.0 found,
          get-append t.buses (child_state (length t.names) (length t.channels) ∷ []) p parent found,
        )
        (child_pushed s (with_child t p parent) (child_added s t h p parent) p parent
          (parent.children ++ length t.buses ∷ [])
          (get-append t.buses (child_state (length t.names) (length t.channels) ∷ []) p parent
            found))

  destroy_dispatcher-Stays :
      (c : ℕ) (t : System) (w : W) (now : ChannelState)
      → get_elem? t.channels c ≡ some now
      → Stays s t
      → (d : Dispatcher) → Stays s (destroy_dispatcher services c now d (t, w)).1.0
  unfolding destroy_dispatcher
  destroy_dispatcher-Stays c t w now p h noop = h
  destroy_dispatcher-Stays c t w now p h (broadcast hs) =
      (Stays-IsClosed s).channel_closed t c now _ h p refl
  destroy_dispatcher-Stays c t w now p h (unicast hs) =
      (Stays-IsClosed s).channel_closed t c now _ h p refl
  destroy_dispatcher-Stays c t w now p h (direct x) = h
  destroy_dispatcher-Stays c t w now p h (pollable queue) = h
  destroy_dispatcher-Stays c t w now p h (exchange m ts) =
      write_topics-Stays s t w c now p h m (Exchange.destroy Exchange.subscribable_topics ts)
  destroy_dispatcher-Stays c t w now p h (outer d) =
      Evolves-Stays s (services.destroy_outer d) (kind.destroys d) (t, w) h

  destroy_channel-Stays : (c : ℕ) → Preserves (On (Stays s)) (destroy_channel services c)
  unfolding destroy_channel
  destroy_channel-Stays c = reading-Stays s c _ (λ t w now p h.
      destroy_dispatcher-Stays c _ w (untapped services now) (get-set_at_self t.channels c now _ p)
        ((Stays-IsClosed s).channel_closed t c now (untapped services now) h p refl) now.dispatcher)

  destroy_component-Stays :
      (x : Component) → Preserves (On (Stays s)) (destroy_component services x)
  unfolding destroy_component
  destroy_component-Stays (channel ch) = destroy_channel-Stays (channel_under ch)
  destroy_component-Stays (handler h) = λ x g. g
  destroy_component-Stays (named name) = λ x g. g
  destroy_component-Stays (exported o x) = λ y g. g

  destroy_name-Stays :
      (b : ℕ) (name : Str) → Preserves (On (Stays s)) (destroy_name services b name)
  unfolding destroy_name
  destroy_name-Stays b name =
      bind-Preserves (On (Stays s)) (read_component services b name) _
        (λ (t, w).
          or_type_error-Preserves (Stays s) (get (bus_at t.names b).components name) (t, w))
        (λ x.
          bind-Preserves (On (Stays s)) (destroy_component services x)
            (λ _. delete_component services b name) (destroy_component-Stays x)
            (λ _ (t, w) h. names_written s t h _ (length-set_components t.names b _)))

  destroy_own-Stays : (b d i : ℕ) → Preserves (On (Stays s)) (destroy_own services b d i)
  unfolding destroy_own
  destroy_own-Stays b d i (t, w) =
      bind-Preserves (On (Stays s))
        (for_each (destroy_name services b) (keys (bus_at t.names b).components)) _
        (for_each-Preserves (On (Stays s)) (destroy_name services b) _ (destroy_name-Stays b))
        (λ _.
          bind-Preserves (On (Stays s)) (destroy_channel services d)
            (λ _. destroy_channel services i) (destroy_channel-Stays d)
            (λ _. destroy_channel-Stays i))
        (t, w)

  pub destroy-Stays : (n b : ℕ) → Preserves (On (Stays s)) (destroy services n b)
  unfolding destroy
  destroy-Stays zero b (t, w) h = h
  destroy-Stays (suc n) b (t, w) h =
      bind-Preserves (On (Stays s)) (or_type_error (bus_at t.names b).parent) _
        (or_type_error-Preserves (Stays s) (bus_at t.names b).parent)
        (λ _. bind-Preserves (On (Stays s)) (read_bus b) _ (read_bus-Preserves (Stays s) b) (λ bus.
          bind-Preserves (On (Stays s)) (for_each (destroy services n) bus.children) _
            (for_each-Preserves (On (Stays s)) (destroy services n) bus.children (destroy-Stays n))
            (λ _. destroy_own-Stays b bus.dead_letter_channel bus.invalid_message_channel)))
        (t, w) h
