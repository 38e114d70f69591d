-- ===== src/System/Growth.antt =====
-- msgs.js: sending keeps every bus and every channel, and its bus.
pub mod Sending
pub mod Quiet
use msgs.Base.{
  ℕ, zero, suc, Option, none, some, Option-cases, inl, inr, List, [], ◌∷◌, refl, ap, ◌∙◌, ◌≡◌,
  nat_eq, get_elem?,
}
use msgs.Js.Value.{Value}
use msgs.Js.Object.{Object}
use msgs.Js.Effect.{or_type_error, ◌>>=◌, ◌>>◌}
use msgs.Js.Preserves.{Preserves}
use msgs.Dispatchers.Exchange.Topical.{RegExp}
use msgs.Message.{Factory}
use msgs.Dispatchers.Broadcast
use msgs.Dispatchers.Broadcast.Preserves as BroadcastKeeps
use msgs.Dispatchers.Unicast.Preserves as UnicastKeeps
use msgs.Dispatchers.Exchange.Preserves as ExchangeKeeps
use msgs.Dispatchers.Direct
use msgs.System.{
  System, ChannelState, BusState, read_bus, read_channel, read_handler, make_message, set_at,
}

-- The channel `c` is still there, on its bus.
abbrev pub ChannelStays : System → ℕ → ChannelState → Type 0
ChannelStays s c state =
    (now : ChannelState) × (get_elem? s.channels c ≡ some now) × (now.bus ≡ state.bus)

-- The bus `b` is still there, with its two channels.
abbrev pub BusStays : System → ℕ → BusState → Type 0
BusStays s b bus =
    (now : BusState) × (get_elem? s.buses b ≡ some now)
    × (now.dead_letter_channel ≡ bus.dead_letter_channel)
    × (now.invalid_message_channel ≡ bus.invalid_message_channel)

-- No bus and no channel has gone.
abbrev pub Grows : System → System → Type 0
Grows s t =
    ((c : ℕ) (state : ChannelState) → get_elem? s.channels c ≡ some state → ChannelStays t c state)
    × ((b : ℕ) (bus : BusState) → get_elem? s.buses b ≡ some bus → BusStays t b bus)

pub Grows-refl : (s : System) → Grows s s
Grows-refl s = (λ c state p. (state, p, refl), λ b bus p. (bus, p, refl, refl))

pub Grows-trans : (s t u : System) → Grows s t → Grows t u → Grows s u
Grows-trans s t u f g = (
  λ c state p. let (v, q, e) = f.0 c state p in let (v', q', e') = g.0 c v q in (v', q', e' ∙ e),
  λ b bus p.
      let (v, q, d, i) = f.1 b bus p in
      let (v', q', d', i') = g.1 b v q in (v', q', d' ∙ d, i' ∙ i),
)

-- One write to a list leaves what stands there with a number.
write_stays {ℓ κ} :
    {A : Type ℓ} {B : Type κ} (f : A → B) (xs : List A) (i j : ℕ) (x y z : A)
    → get_elem? xs i ≡ some x
    → f y ≡ f x
    → get_elem? xs j ≡ some z
    → (v : A) × (get_elem? (set_at xs i y) j ≡ some v) × (f v ≡ f z)
unfolding set_at
write_stays f [] i j x y z p q r = absurd (cc p)
write_stays f (a ∷ xs) zero zero x y z p q r = (y, refl, q ∙ ap f (cc))
write_stays f (a ∷ xs) zero (suc j) x y z p q r = (z, r, refl)
write_stays f (a ∷ xs) (suc i) zero x y z p q r = (z, r, refl)
write_stays f (a ∷ xs) (suc i) (suc j) x y z p q r = write_stays f xs i j x y z p q r

module _ (s t : System) (g : Grows s t) where
  -- A channel is written, with its bus.
  pub channel_written :
      (c : ℕ) (now state : ChannelState)
      → get_elem? t.channels c ≡ some now
      → state.bus ≡ now.bus
      → Grows s (record t { channels = set_at t.channels c state })
  channel_written c now state p q = (
    λ d old r.
        let (v, u, e) = g.0 d old r in
        let (v', u', e') = write_stays (λ x. x.bus) t.channels c d now state v p q u in
        (v', u', e' ∙ e),
    g.1,
  )

  -- A bus is written, with its two channels.
  pub bus_written :
      (b : ℕ) (now state : BusState)
      → get_elem? t.buses b ≡ some now
      → state.dead_letter_channel ≡ now.dead_letter_channel
      → state.invalid_message_channel ≡ now.invalid_message_channel
      → Grows s (record t { buses = set_at t.buses b state })
  bus_written b now state p q q' = (
    g.0,
    λ d old r.
        let (v, u, e, e') = g.1 d old r in
        let both : Path (ℕ × ℕ) (state.dead_letter_channel, state.invalid_message_channel)
            (now.dead_letter_channel, now.invalid_message_channel) =
          rw (q, q') refl in
        let (v', u', k) =
          write_stays {B = ℕ × ℕ} (λ x. (x.dead_letter_channel, x.invalid_message_channel)) t.buses
            b d now state v p both u in
        (v', u', ap (λ x. x.0) k ∙ e, ap (λ x. x.1) k ∙ e'),
  )

-- A property of programs that the writes of a send keep: a channel is written, with its bus, a bus that
-- has counted messages is, and the cache of the topical matcher is.
pub record IsClosed (P : System → Type 0) : Type 0 where
  pub channel_closed :
      (t : System) (c : ℕ) (now state : ChannelState)
      → P t
      → get_elem? t.channels c ≡ some now
      → state.bus ≡ now.bus
      → P (record t { channels = set_at t.channels c state })
  pub factory_closed :
      (t : System) (b : ℕ) (now : BusState) (f : Factory)
      → P t
      → get_elem? t.buses b ≡ some now
      → P (record t { buses = set_at t.buses b (record now { factory = f }) })
  pub cache_closed : (t : System) (cache : Object RegExp) → P t → P (record t { cache = cache })

pub Grows-IsClosed : (s : System) → IsClosed (Grows s)
Grows-IsClosed s = record {
  channel_closed = λ t c now state g p q. channel_written s t g c now state p q;
  factory_closed = λ t b now f g p. bus_written s t g b now _ p refl refl;
  cache_closed = λ t cache g. g;
}

-- The program has the property, whatever the rest of its state.
abbrev pub On : {W : Type 0} → (System → Type 0) → System × W → Type 0
On P (t, w) = P t

module _ {W : Type 0} (P : System → Type 0) (closed : IsClosed P) where
  pub make_message-Preserves :
      (b : ℕ) (payload : Value) (headers : Object Value)
      → Preserves (On P) (make_message {W = W} b payload headers)
  make_message-Preserves b payload headers (t, w) g = elim (Option-cases (get_elem? t.buses b)) [
    | inl p ↦ rw p g
    | inr (bus, p) ↦ rw p (closed.factory_closed t b bus _ g p)
  ]

module _ {W : Type 0} (P : System → Type 0) where
  pub or_type_error-Preserves {ℓ} :
      {A : Type ℓ} (x : Option A) → Preserves (On P) (or_type_error {W = System × W} x)
  or_type_error-Preserves none w g = g
  or_type_error-Preserves (some a) w g = g

  pub read_channel-Preserves : (c : ℕ) → Preserves (On P) (read_channel {W = W} c)
  read_channel-Preserves c (t, w) = or_type_error-Preserves (get_elem? t.channels c) (t, w)

  pub read_bus-Preserves : (b : ℕ) → Preserves (On P) (read_bus {W = W} b)
  read_bus-Preserves b (t, w) = or_type_error-Preserves (get_elem? t.buses b) (t, w)

  pub read_handler-Preserves : (h : ℕ) → Preserves (On P) (read_handler {W = W} h)
  read_handler-Preserves h (t, w) = or_type_error-Preserves (get_elem? t.handlers h) (t, w)
