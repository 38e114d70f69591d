-- ===== src/System/DeadLetters.antt =====
-- msgs.js: what becomes of a message that no handler of its channel takes: the dead letter channel of
-- each bus forwards to that of its parent.
pub mod Letters
pub mod Root
use msgs.Base.{ℕ, zero, suc, true, none, some, List, [], ◌∷◌, ◌≡◌, refl, ap, get_elem?, nat_eq}
use msgs.Js.Text.{Str, str_eq, text}
use msgs.Js.Value.{Value, truthy}
use msgs.Js.Object.{has}
use msgs.Js.Effect.{ok, ◌>>=◌}
use msgs.Message.{Message, new_message, stamp, clone, wrap}
use msgs.Bus.Channel
use msgs.Bus.Handler.{as_value, handle}
use msgs.Bus.Kinds.{forward}
use msgs.Bus.Names.{resolve_channel, resolve_handler, send_through}
use msgs.Dispatchers.Broadcast
use msgs.Dispatchers.Broadcast.{visit}
use msgs.Dispatchers.Unicast
use msgs.Dispatchers.Exchange
use msgs.Dispatchers.Subscribable.{handlers_copy}
use msgs.System.{
  System, BusState, broadcast, by_ref, forwarding, set_at, component_of, make_message,
}
use msgs.System.Sending.{
  Services, send, channel_send, wiring_of, deliver, dispatch_by, kind_transform,
}

set_at_same {ℓ} :
    {A : Type ℓ} (xs : List A) (i : ℕ) (x : A) → get_elem? xs i ≡ some x → set_at xs i x ≡ xs
unfolding set_at
set_at_same [] i x p = refl
set_at_same (y ∷ xs) zero x p = ap (λ z. z ∷ xs) (cc)
set_at_same (y ∷ xs) (suc i) x p = ap (λ zs. y ∷ zs) (set_at_same xs i x p)

-- A message of a message's own headers: what arrives when a message is forwarded.
unfoldable pub forwarded : Message → Message
unfolding clone wrap
forwarded m = wrap (as_value m) (clone m.headers)

-- The dead letters of the channel `d` go to the channel `e`: `d` has one handler, that of
-- `this.forward(e)`.
pub record Forwards (s : System) (d e : ℕ) : Type 0 where
  pub bus : ℕ
  pub bus_state : BusState
  pub handler : ℕ
  pub type : Str
  pub has_bus : get_elem? s.buses bus ≡ some bus_state
  pub has_channel :
      get_elem? s.channels d
      ≡ some (record {
        bus = bus;
        dispatcher = broadcast (some (by_ref handler ∷ []));
        taps = none;
        type = type;
      })
  pub has_handler :
      get_elem? s.handlers handler
      ≡ some (record {
        bus = bus;
        kind = forwarding;
        output = Value.channel_ref e;
        error = Value.undef;
      })

-- From the channel `d` up to the channel `r`, so many generations above.
pub data Line (s : System) : ℕ → ℕ → ℕ → Type 0 where
  here : {d : ℕ} → Line s d d 0
  up : {d e r k : ℕ} → Forwards s d e → Line s e r k → Line s d r (suc k)

module _ {W : Type 0} (services : Services W) where
  -- Forwarding a message that has an id takes no number of the bus.
  make_forwarded :
      (s : System) (w : W) (b : ℕ) (bus : BusState) (m : Message)
      → get_elem? s.buses b ≡ some bus
      → has m.headers (text "id") ≡ true
      → make_message b (as_value m) m.headers (s, w) ≡ (ok (forwarded m), (s, w))
  unfolding new_message stamp forwarded
  make_forwarded s w b bus m p q = rw (p, q, set_at_same s.buses b bus p) refl

  module _ (s : System) (w : W) (n : ℕ) (s' : System × W) where
    abbrev Returns : ℕ → ℕ → Message → Type 0
    Returns n c m = channel_send services (send services n) n c m (s, w) ≡ (ok tt, s')

    -- What the handler of a dead letter channel does to one letter.
    forward_lem :
        (d e : ℕ) (m : Message) (f : Forwards s d e)
        → has m.headers (text "id") ≡ true
        → Returns n e (forwarded m)
        → deliver services (send services (suc n)) (suc n) f.bus m (by_ref f.handler) (s, w)
          ≡ (ok tt, s')
    unfolding deliver resolve_handler handle forward kind_transform send component_of
        resolve_channel truthy send_through
    forward_lem d e m f i r =
        rw (f.has_handler, make_forwarded s w f.bus f.bus_state m f.has_bus i) (rw r refl)

    -- One dead letter channel.
    channel_lem :
        (d e : ℕ) (m : Message) (f : Forwards s d e)
        → has m.headers (text "id") ≡ true
        → Returns n e (forwarded m)
        → channel_send services (send services (suc n)) (suc n) d m (s, w) ≡ (ok tt, s')
    unfolding channel_send wiring_of Channel.send dispatch_by Broadcast.dispatch visit handlers_copy
    channel_lem d e m f i r =
        rw (f.has_channel, f.has_bus) (rw f.has_channel (rw (forward_lem d e m f i r) refl))
