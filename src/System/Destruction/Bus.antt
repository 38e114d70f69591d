-- ===== src/System/Destruction/Bus.antt =====
-- msgs.js: what `destroy` of a bus leaves.
use msgs.Base.{
  ℕ, zero, suc, false, some, List, [], ◌∷◌, ◌++◌, ◌≡◌, refl, sym, ap, get_elem?, eqb, arith, nat_eq,
  if◌then◌else◌, eq_refl,
}
use msgs.Js.Text.{Str, str_eq}
use msgs.Js.Effect.{ok, for_each}
use msgs.Js.Object.{Object, get, keys, delete}
use msgs.Bus.Names.{Store, Component, channel, handler, named, exported, bus_at, set_components}
use msgs.Bus.Taps.{Taps}
use msgs.Dispatchers.Subscribable
use msgs.Dispatchers.Exchange.Destruction.{destroy-none}
use msgs.System.{
  System, BusState, ChannelState, Dispatcher, noop, broadcast, unicast, direct, pollable, exchange,
  outer, set_at, Subscriber, subscriber_eq,
}
use msgs.System.Sending.{Services}
use msgs.System.Destroying.{
  destroy_channel, destroy_dispatcher, destroy_component, destroy_name, destroy_own, destroy,
  channel_under,
}
use msgs.System.Destruction.{
  shut, shut_option, shut_dispatcher, IsBuiltIn, shut_at, shut_all, is_in, Opened, get-shut_all,
  set_at-set_at, set_at-shut, shut_at-Opened, shut_all-Opened, shut_all-append,
}

module _ {W : Type 0} (services : Services W) where
  destroy_channel_lem :
      (s : System) (w : W) (c b : ℕ) (taps : Taps Subscriber) (type : Str) (d : Dispatcher)
      → (get_elem? s.channels c
          ≡ some (record { bus = b; dispatcher = d; taps = taps; type = type }))
      → IsBuiltIn d
      → destroy_channel services c (s, w) ≡ (
        ok tt,
        (
          record s {
            channels =
                set_at s.channels c
                  (shut (record { bus = b; dispatcher = d; taps = taps; type = type }));
          },
          w,
        ),
      )
  unfolding destroy_channel destroy_dispatcher shut shut_dispatcher Subscribable.destroy
  destroy_channel_lem s w c b taps type (broadcast hs) p i = rw (p, set_at-set_at s.channels c) refl
  destroy_channel_lem s w c b taps type (unicast hs) p i = rw (p, set_at-set_at s.channels c) refl
  destroy_channel_lem s w c b taps type (exchange m ts) p i =
      rw (p, destroy-none ts, set_at-set_at s.channels c) refl
  destroy_channel_lem s w c b taps type noop p i = rw p refl
  destroy_channel_lem s w c b taps type (direct h) p i = rw p refl
  destroy_channel_lem s w c b taps type (pollable q) p i = rw p refl
  destroy_channel_lem s w c b taps type (outer o) p i = absurd i

  destroy_channel-shut_at :
      (s : System) (w : W) (c : ℕ) (cs : List ℕ)
      → Opened s.channels (c ∷ cs)
      → destroy_channel services c (s, w)
        ≡ (ok tt, (record s { channels = shut_at s.channels c }, w))
  destroy_channel-shut_at s w c cs ((state, p, i), o) =
      rw (set_at-shut s.channels c state p) at
        (destroy_channel_lem s w c state.bus state.taps state.type state.dispatcher p i)

-- The channels that an object of components holds.
abbrev pub channels_of : Object Component → List ℕ
channels_of [] = []
channels_of ((name, channel ch) ∷ o) = channel_under ch ∷ channels_of o
channels_of ((name, handler h) ∷ o) = channels_of o
channels_of ((name, named s) ∷ o) = channels_of o
channels_of ((name, exported b x) ∷ o) = channels_of o

pub bus_at-set_components :
    (names : Store) (b p : ℕ) (o : Object Component)
    → (bus_at names b).parent ≡ some p
    → bus_at (set_components names b o) b ≡ record (bus_at names b) { components = o }
unfolding bus_at set_components
bus_at-set_components [] b p o h = absurd (cc)
bus_at-set_components (x ∷ names) zero p o h = refl
bus_at-set_components (x ∷ names) (suc b) p o h = bus_at-set_components names b p o h

pub bus_at-other :
    (names : Store) (b j : ℕ) (o : Object Component)
    → eqb b j ≡ false
    → bus_at (set_components names b o) j ≡ bus_at names j
unfolding bus_at set_components
bus_at-other [] b j o h = refl
bus_at-other (x ∷ names) zero zero o h = absurd (cc)
bus_at-other (x ∷ names) zero (suc j) o h = refl
bus_at-other (x ∷ names) (suc b) zero o h = refl
bus_at-other (x ∷ names) (suc b) (suc j) o h = bus_at-other names b j o (ground arith)

set_components-set_components :
    (names : Store) (b : ℕ) (o o' : Object Component)
    → set_components (set_components names b o) b o' ≡ set_components names b o'
unfolding set_components
set_components-set_components [] b o o' = refl
set_components-set_components (x ∷ names) zero o o' = refl
set_components-set_components (x ∷ names) (suc b) o o' =
    ap (λ zs. x ∷ zs) (set_components-set_components names b o o')

set_components-same :
    (names : Store) (b : ℕ) → set_components names b (bus_at names b).components ≡ names
unfolding set_components bus_at
set_components-same [] b = refl
set_components-same (x ∷ names) zero = refl
set_components-same (x ∷ names) (suc b) = ap (λ zs. x ∷ zs) (set_components-same names b)

module _ {W : Type 0} (services : Services W) (names : Store) (b p : ℕ)
    (has_parent : (bus_at names b).parent ≡ some p) where
  abbrev with_names : System → Object Component → System
  with_names s o = record s { names = set_components names b o }

  -- One name, of a component whose `destroy` does this to the channels.
  name_lem :
      (k : Str) (x : Component) (o : Object Component) (s : System) (w : W)
      (channels : List ChannelState)
      → (destroy_component services x (with_names s ((k, x) ∷ o), w)
          ≡ (ok tt, (record (with_names s ((k, x) ∷ o)) { channels = channels }, w)))
      → destroy_name services b k (with_names s ((k, x) ∷ o), w)
        ≡ (ok tt, (record (with_names s o) { channels = channels }, w))
  unfolding destroy_name get delete
  name_lem k x o s w channels d =
      rw
        (
          bus_at-set_components names b p ((k, x) ∷ o) has_parent,
          eq_refl k,
          d,
          bus_at-set_components names b p ((k, x) ∷ o) has_parent,
          eq_refl k,
          set_components-set_components names b ((k, x) ∷ o) o,
        )
        refl

  -- The loop over the names: what is left of the components is what the loop has not come to.
  names_lem :
      (o : Object Component) (s : System) (w : W)
      → Opened s.channels (channels_of o)
      → for_each (destroy_name services b) (keys o) (with_names s o, w)
        ≡ (ok tt, (record (with_names s []) { channels = shut_all s.channels (channels_of o) }, w))
  unfolding for_each shut_all destroy_component
  names_lem [] s w op = refl
  names_lem ((k, channel ch) ∷ o) s w op =
      let c = channel_under ch in
      rw
        (name_lem k (channel ch) o s w (shut_at s.channels c) (
          destroy_channel-shut_at services (with_names s ((k, channel ch) ∷ o)) w c (channels_of o)
            op))
        (names_lem o (record s { channels = shut_at s.channels c }) w
          (shut_at-Opened s.channels c (channels_of o) op.1))
  names_lem ((k, handler x) ∷ o) s w op =
      rw (name_lem k (handler x) o s w s.channels refl) (names_lem o s w op)
  names_lem ((k, named x) ∷ o) s w op =
      rw (name_lem k (named x) o s w s.channels refl) (names_lem o s w op)
  names_lem ((k, exported x y) ∷ o) s w op =
      rw (name_lem k (exported x y) o s w s.channels refl) (names_lem o s w op)

-- The channels that a bus destroys: those it has a name for, and its own two.
abbrev pub owned : System → ℕ → BusState → List ℕ
owned s b bus =
    channels_of (bus_at s.names b).components
    ++ bus.dead_letter_channel ∷ bus.invalid_message_channel ∷ []

-- The program after the bus has destroyed what it owns.
unfoldable pub emptied : System → ℕ → BusState → System
unfolding shut_all
emptied s b bus = record s {
  names = set_components s.names b [];
  channels = shut_all s.channels (owned s b bus);
}

module _ {W : Type 0} (services : Services W) where
  pub destroy_own-emptied :
      (s : System) (w : W) (b p : ℕ) (bus : BusState)
      → (bus_at s.names b).parent ≡ some p
      → Opened s.channels (owned s b bus)
      → destroy_own services b bus.dead_letter_channel bus.invalid_message_channel (s, w)
        ≡ (ok tt, (emptied s b bus, w))
  unfolding destroy_own emptied
  destroy_own-emptied s w b p bus has_parent op =
      let components = (bus_at s.names b).components in
      let own = bus.dead_letter_channel ∷ bus.invalid_message_channel ∷ [] in
      let (named_op, own_op) = shut_all-Opened s.channels (channels_of components) own op in
      let looped = record s {
        names = set_components s.names b [];
        channels = shut_all s.channels (channels_of components);
      } in
      rw
        (
          rw (set_components-same s.names b) at
              (names_lem services s.names b p has_parent components s w named_op),
          destroy_channel-shut_at services looped w bus.dead_letter_channel
              (bus.invalid_message_channel ∷ []) own_op,
          destroy_channel-shut_at services
              (record looped { channels = shut_at looped.channels bus.dead_letter_channel }) w
              bus.invalid_message_channel []
              (shut_at-Opened looped.channels bus.dead_letter_channel
                (bus.invalid_message_channel ∷ []) own_op.1),
          sym (shut_all-append s.channels (channels_of components) own),
        )
        refl

  -- Destroying a bus with a parent, where its children's destruction ends and leaves it its parent,
  -- and all channels that it owns are there, with dispatchers that are not made elsewhere: it
  -- throws nothing. The bus has no names left; of the channels that it had a name for, and of its
  -- own two, the subscribed handlers, the topics and the taps are gone, while a queue keeps its
  -- messages and a direct channel its handler; and every other channel, and the names of every
  -- other bus, are as the children left them, as is the rest of the program.
  pub destroy-emptied :
      (s : System) (w : W) (s' : System) (w' : W) (n b p : ℕ) (bus : BusState)
      → (bus_at s.names b).parent ≡ some p
      → get_elem? s.buses b ≡ some bus
      → for_each (destroy services n) bus.children (s, w) ≡ (ok tt, (s', w'))
      → (bus_at s'.names b).parent ≡ some p
      → Opened s'.channels (owned s' b bus)
      → (destroy services (suc n) b (s, w) ≡ (ok tt, (emptied s' b bus, w')))
        × ((c : ℕ)
            → get_elem? (emptied s' b bus).channels c ≡ (
                if is_in c (owned s' b bus)
                then shut_option (get_elem? s'.channels c)
                else get_elem? s'.channels c))
        × ((bus_at (emptied s' b bus).names b).components ≡ [])
        × ((j : ℕ) → (eqb b j ≡ false) → bus_at (emptied s' b bus).names j ≡ bus_at s'.names j)
  unfolding destroy emptied
  destroy-emptied s w s' w' n b p bus has_parent has_bus children still op = (
    rw (has_parent, has_bus, children) (destroy_own-emptied s' w' b p bus still op),
    λ c. get-shut_all s'.channels (owned s' b bus) c,
    rw (bus_at-set_components s'.names b p [] still) refl,
    λ j ne. bus_at-other s'.names b j [] ne,
  )
