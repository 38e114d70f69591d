-- ===== src/System/Soundness.antt =====
-- msgs.js: every channel is on a bus that is there, with its invalid message channel.
pub mod Writes
pub mod Channels
pub mod Operations
pub mod Histories
use msgs.Base.{ℕ, zero, suc, some, List, [], ◌∷◌, ◌≡◌, refl, sym, ap, ◌∙◌, get_elem?, length}
use msgs.System.{System, BusState, ChannelState, set_at}
use msgs.System.Places.{length-set_at}
use msgs.System.Growth.{Grows, Grows-refl, IsClosed, channel_written, bus_written}
use msgs.System.Growth.Quiet.{OnBus}

-- The channel's bus is there, and so is the invalid message channel of that bus, on that bus.
abbrev pub HasBus : System → ℕ → Type 0
HasBus s b =
    (bus : BusState) × (get_elem? s.buses b ≡ some bus)
    × (invalid : ChannelState) × (get_elem? s.channels bus.invalid_message_channel ≡ some invalid)
    × (invalid.bus ≡ b)

abbrev pub IsSound : System → Type 0
IsSound s =
    (length s.names ≡ length s.buses)
    × ((c : ℕ) (state : ChannelState) → get_elem? s.channels c ≡ some state → HasBus s state.bus)

-- So nothing that is sent to a channel that is there throws.
pub IsSound-OnBus :
    (s : System) (c : ℕ) (state : ChannelState)
    → IsSound s
    → get_elem? s.channels c ≡ some state
    → OnBus s c
IsSound-OnBus s c state h p =
    let (bus, q, invalid, r, on) = h.1 c state p in
    record {
      state = state;
      bus = bus;
      invalid = invalid;
      has_channel = p;
      has_bus = q;
      has_invalid = r;
      same_bus = on;
    }

pub grown-HasBus : (s t : System) (b : ℕ) → Grows s t → HasBus s b → HasBus t b
grown-HasBus s t b g (bus, p, invalid, q, on) =
    let (bus', p', _, same) = g.1 b bus p in
    let (invalid', q', on') = g.0 bus.invalid_message_channel invalid q in
    (bus', p', invalid', rw same q', on' ∙ on)

-- What stands in a list after a write stood there before, or was written.
was_written {ℓ κ} :
    {A : Type ℓ} {B : Type κ} (f : A → B) (xs : List A) (i j : ℕ) (x y z : A)
    → get_elem? xs i ≡ some x
    → f y ≡ f x
    → get_elem? (set_at xs i y) j ≡ some z
    → (v : A) × (get_elem? xs j ≡ some v) × (f z ≡ f v)
unfolding set_at
was_written f [] i j x y z p q r = absurd (cc p)
was_written f (a ∷ xs) zero zero x y z p q r = (a, refl, ap f (cc) ∙ q ∙ ap f (cc))
was_written f (a ∷ xs) zero (suc j) x y z p q r = (z, r, refl)
was_written f (a ∷ xs) (suc i) zero x y z p q r = (z, r, refl)
was_written f (a ∷ xs) (suc i) (suc j) x y z p q r = was_written f xs i j x y z p q r

pub IsSound-bus_written :
    (t : System)
    → IsSound t
    → (b : ℕ) (now state : BusState) → get_elem? t.buses b ≡ some now
    → state.dead_letter_channel ≡ now.dead_letter_channel
    → state.invalid_message_channel ≡ now.invalid_message_channel
    → IsSound (record t { buses = set_at t.buses b state })
IsSound-bus_written t h b now state p q q' = (
  h.0 ∙ sym (length-set_at t.buses b state),
  λ d found r.
      grown-HasBus t (record t { buses = set_at t.buses b state }) found.bus
        (bus_written t t (Grows-refl t) b now state p q q') (h.1 d found r),
)

pub IsSound-IsClosed : IsClosed IsSound
IsSound-IsClosed = record {
  channel_closed = channel_write;
  factory_closed = factory_write;
  cache_closed = λ t cache h. h;
}
  where
    channel_write :
        (t : System) (c : ℕ) (now state : ChannelState)
        → IsSound t
        → get_elem? t.channels c ≡ some now
        → state.bus ≡ now.bus
        → IsSound (record t { channels = set_at t.channels c state })
    channel_write t c now state h p q = (
      h.0,
      λ d found r.
          let (old, was, on) =
            was_written {B = ℕ} (λ x. x.bus) t.channels c d now state found p q r in
          rw on (
            grown-HasBus t (record t { channels = set_at t.channels c state }) old.bus
              (channel_written t t (Grows-refl t) c now state p q) (h.1 d old was)),
    )

    factory_write :
        (t : System) (b : ℕ) (now : BusState) (f : msgs.Message.Factory)
        → IsSound t
        → get_elem? t.buses b ≡ some now
        → IsSound (record t { buses = set_at t.buses b (record now { factory = f }) })
    factory_write t b now f h p = IsSound-bus_written t h b now _ p refl refl
