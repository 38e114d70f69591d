-- ===== src/System/Construction.antt =====
-- msgs.js, `MessageBus`: what the constructor of a bus with a parent leaves.
pub mod Lines
use msgs.Base.{
  ℕ, suc, false, List, [], ◌∷◌, ◌++◌, ◌≡◌, refl, sym, ap, ◌∙◌, none, some, get_elem?, length,
  nat_eq, append_assoc,
}
use msgs.Js.Text.{Str, str_eq, text}
use msgs.Js.Value.{Value, truthy}
use msgs.Js.Object.{Object, has, put}
use msgs.Js.Effect.{ok, ◌>>◌, ◌>>=◌}
use msgs.Bus.Names.{
  Store, BusNames, Component, channel, created, bus_at, set_components, alias, resolve_channel,
}
use msgs.Dispatchers.Subscribable
use msgs.System.{
  System, BusState, ChannelState, HandlerState, Dispatcher, broadcast, Subscriber, by_ref,
  forwarding, set_at, new_channel,
}
use msgs.System.Places.{length-snoc, get-append, get-behind, get-second, set-behind, set-second}
use msgs.System.Sending.{Services}
use msgs.System.Subscribing.{subscribe_channel, method_through, subscribe_by}
use msgs.System.Factories.{construct_bus, share, share_with_parent, forward, new_handler}

bus_at-behind : (names : Store) (b : BusNames) → bus_at (names ++ b ∷ []) (length names) ≡ b
unfolding bus_at
bus_at-behind [] b = refl
bus_at-behind (x ∷ names) b = bus_at-behind names b

set_components-behind :
    (names : Store) (b : BusNames) (o : Object Component)
    → set_components (names ++ b ∷ []) (length names) o ≡ names ++ record b { components = o } ∷ []
unfolding set_components
set_components-behind [] b o = refl
set_components-behind (x ∷ names) b o = ap (λ zs. x ∷ zs) (set_components-behind names b o)

-- The state with one bus more, of these names, and these channels.
abbrev grown : System → BusNames → List ChannelState → System
grown s b cs = record s { names = s.names ++ b ∷ []; channels = cs }

module _ {W : Type 0} where
  -- A new channel of the last bus, by a name that it does not have.
  new_channel-grown :
      (s : System) (w : W) (n : ℕ) (b : BusNames) (cs : List ChannelState) (k : ℕ) (name : Str)
      (d : Dispatcher) (type : Str)
      → has b.components (k ∷ name) ≡ false
      → new_channel (suc n) (length s.names) (k ∷ name) d type (grown s b cs, w) ≡ (
        ok (length cs),
        (
          grown s
              (record b {
                components = put b.components (k ∷ name) (channel (created (length cs)));
              })
              (cs
                ++ record { bus = length s.names; dispatcher = d; taps = none; type = type } ∷ []),
          w,
        ),
      )
  unfolding new_channel alias resolve_channel
  new_channel-grown s w n b cs k name d type free =
      rw (bus_at-behind s.names b, free, set_components-behind s.names b _) refl

-- The handler that `this.forward(e)` makes on the bus `b`.
abbrev pub forwarder : ℕ → ℕ → HandlerState
forwarder b e = record {
  bus = b;
  kind = forwarding;
  output = Value.channel_ref e;
  error = Value.undef;
}

-- A channel of broadcasts.
abbrev pub broadcasting : ℕ → List Subscriber → ChannelState
broadcasting b hs = record { bus = b; dispatcher = broadcast (some hs); taps = none; type = [] }

module _ {W : Type 0} (services : Services W) where
  share_lem :
      (s : System) (w : W) (n b c e : ℕ)
      → get_elem? s.channels c ≡ some (broadcasting b [])
      → share services n b c e (s, w) ≡ (
        ok tt,
        (
          record s {
            channels = set_at s.channels c (broadcasting b (by_ref (length s.handlers) ∷ []));
            handlers = s.handlers ++ forwarder b e ∷ [];
          },
          w,
        ),
      )
  unfolding share forward new_handler truthy subscribe_channel method_through subscribe_by
      Subscribable.subscribe Subscribable.index_of
  share_lem s w n b c e p = rw p refl

  -- The two channels of a new bus, which stand behind the others.
  shares_lem :
      (s : System) (w : W) (n b e e' : ℕ) (cs : List ChannelState)
      → s.channels ≡ cs ++ broadcasting b [] ∷ broadcasting b [] ∷ []
      → (share services n b (length cs) e >> share services n b (suc (length cs)) e') (s, w) ≡ (
        ok tt,
        (
          record s {
            channels =
                cs
                ++ broadcasting b (by_ref (length s.handlers) ∷ [])
                  ∷ broadcasting b (by_ref (suc (length s.handlers)) ∷ [])
                  ∷ [];
            handlers = s.handlers ++ forwarder b e ∷ forwarder b e' ∷ [];
          },
          w,
        ),
      )
  shares_lem s w n b e e' cs p =
      let first = broadcasting b [] in
      rw
        (
          share_lem s w n b (length cs) e
              (ap (λ xs. get_elem? xs (length cs)) p ∙ get-behind cs _ _),
          p,
          set-behind cs (first ∷ []) first (broadcasting b (by_ref (length s.handlers) ∷ [])),
          share_lem
              (record s {
                channels = cs ++ broadcasting b (by_ref (length s.handlers) ∷ []) ∷ first ∷ [];
                handlers = s.handlers ++ forwarder b e ∷ [];
              })
              w n b (suc (length cs)) e' (get-second cs [] _ _),
          set-second cs [] (broadcasting b (by_ref (length s.handlers) ∷ [])) first
              (broadcasting b (by_ref (length (s.handlers ++ forwarder b e ∷ [])) ∷ [])),
          length-snoc s.handlers (forwarder b e),
          append_assoc s.handlers (forwarder b e ∷ []) (forwarder b e' ∷ []),
        )
        refl

-- What the new bus closes over, the `b`th, behind so many channels.
abbrev pub child_state : ℕ → ℕ → BusState
child_state b channels = record {
  children = [];
  dead_letter_channel = channels;
  invalid_message_channel = suc channels;
  factory = record { bus_id = b; next_message = 0 };
}

-- The program with one bus more, whose parent is `p`.
unfoldable pub with_child : System → ℕ → BusState → System
with_child s p parent =
    let b = length s.names in
    let c = length s.channels in
    let h = length s.handlers in
    record {
      names =
          s.names
          ++ (record {
            parent = some p;
            components =
                (text "deadLetterChannel", channel (created c))
                ∷ (text "invalidMessageChannel", channel (created (suc c)))
                ∷ [];
          })
            ∷ [];
      buses = s.buses ++ child_state b c ∷ [];
      channels =
          s.channels ++ broadcasting b (by_ref h ∷ []) ∷ broadcasting b (by_ref (suc h) ∷ []) ∷ [];
      handlers =
          s.handlers
          ++ forwarder b parent.dead_letter_channel
            ∷ forwarder b parent.invalid_message_channel
            ∷ [];
      cache = s.cache;
    }

module _ {W : Type 0} (services : Services W) where
  pub construct_bus-with_child :
      (s : System) (w : W) (n p : ℕ) (parent : BusState)
      → length s.names ≡ length s.buses
      → get_elem? s.buses p ≡ some parent
      → construct_bus services (suc n) (some p) (s, w)
        ≡ (ok (length s.buses), (with_child s p parent, w))
  unfolding construct_bus share_with_parent with_child has put truthy
  construct_bus-with_child s w n p parent even has_parent =
      rw
        (
          sym even,
          new_channel-grown s w n (record { parent = some p; components = [] }) s.channels _ _
              (broadcast (some [])) [] refl,
          new_channel-grown s w n
              (record {
                parent = some p;
                components = (text "deadLetterChannel", channel (created (length s.channels))) ∷ [];
              })
              (s.channels ++ broadcasting (length s.names) [] ∷ []) b'i'
              (text "nvalidMessageChannel") (broadcast (some [])) [] refl,
          length-snoc s.channels (broadcasting (length s.names) []),
          append_assoc s.channels (broadcasting (length s.names) [] ∷ [])
              (broadcasting (length s.names) [] ∷ []),
          get-append s.buses (child_state (length s.names) (length s.channels) ∷ []) p parent
              has_parent,
          shares_lem services
              (record {
                names = (with_child s p parent).names;
                buses = (with_child s p parent).buses;
                channels =
                    s.channels
                    ++ broadcasting (length s.names) [] ∷ broadcasting (length s.names) [] ∷ [];
                handlers = s.handlers;
                cache = s.cache;
              })
              w n (length s.names) parent.dead_letter_channel parent.invalid_message_channel
              s.channels refl,
        )
        refl
