-- ===== src/System/Construction/Lines.antt =====
-- msgs.js, `MessageBus`: the dead letter channel of a new bus forwards to that of its parent, and its
-- invalid message channel to its parent's.
use msgs.Base.{ℕ, suc, [], ◌≡◌, sym, ap, ◌∙◌, some, get_elem?, length, nat_eq}
use msgs.Js.Text.{str_eq}
use msgs.Js.Effect.{ok}
use msgs.System.{System, BusState}
use msgs.System.Sending.{Services}
use msgs.System.Factories.{construct_bus}
use msgs.System.DeadLetters.{Forwards, Line, here, up}
use msgs.System.Places.{length-snoc, get-append, get-behind, get-second}
use msgs.System.Construction.{with_child, child_state, construct_bus-with_child}

module _ (s : System) (p : ℕ) (parent : BusState) where
  kept-Forwards : {d e : ℕ} → Forwards s d e → Forwards (with_child s p parent) d e
  unfolding with_child
  kept-Forwards f = record {
    bus = f.bus;
    bus_state = f.bus_state;
    handler = f.handler;
    type = f.type;
    has_bus = get-append s.buses _ f.bus _ f.has_bus;
    has_channel = get-append s.channels _ _ _ f.has_channel;
    has_handler = get-append s.handlers _ f.handler _ f.has_handler;
  }

  kept-Line : {d r k : ℕ} → Line s d r k → Line (with_child s p parent) d r k
  kept-Line here = here
  kept-Line (up f l) = up (kept-Forwards f) (kept-Line l)

  module _ (even : length s.names ≡ length s.buses) where
    has_child :
        get_elem? (with_child s p parent).buses (length s.names)
        ≡ some (child_state (length s.names) (length s.channels))
    unfolding with_child
    has_child = ap (λ i. get_elem? (with_child s p parent).buses i) even ∙ get-behind s.buses _ _

    dead_letter-Forwards :
        Forwards (with_child s p parent) (length s.channels) parent.dead_letter_channel
    unfolding with_child
    dead_letter-Forwards = record {
      bus = length s.names;
      bus_state = child_state (length s.names) (length s.channels);
      handler = length s.handlers;
      type = [];
      has_bus = has_child;
      has_channel = get-behind s.channels _ _;
      has_handler = get-behind s.handlers _ _;
    }

    invalid_message-Forwards :
        Forwards (with_child s p parent) (suc (length s.channels)) parent.invalid_message_channel
    unfolding with_child
    invalid_message-Forwards = record {
      bus = length s.names;
      bus_state = child_state (length s.names) (length s.channels);
      handler = suc (length s.handlers);
      type = [];
      has_bus = has_child;
      has_channel = get-second s.channels _ _ _;
      has_handler = get-second s.handlers _ _ _;
    }

-- If the names and the buses are equally many and the bus `p` is there, then constructing a bus with
-- the parent `p` returns its number, the next one, and leaves a program with one bus more, in which
-- the dead letter channel of the new bus and its invalid message channel, each by its name, are the
-- next two channels. A line of dead letter channels that goes up from the parent's goes up from
-- the new bus's, with one generation more, and so for the invalid message channels; the names and
-- the buses are equally many again; and every line that there was is still there.
pub construct_bus-Line :
    {W : Type 0} (services : Services W) (s : System) (w : W) (n p : ℕ) (parent : BusState)
    {d k i j : ℕ}
    → length s.names ≡ length s.buses
    → get_elem? s.buses p ≡ some parent
    → Line s parent.dead_letter_channel d k
    → Line s parent.invalid_message_channel i j
    → (construct_bus services (suc n) (some p) (s, w)
        ≡ (ok (length s.buses), (with_child s p parent, w)))
      × (get_elem? (with_child s p parent).buses (length s.buses)
          ≡ some (child_state (length s.buses) (length s.channels)))
      × Line (with_child s p parent) (length s.channels) d (suc k)
      × Line (with_child s p parent) (suc (length s.channels)) i (suc j)
      × (length (with_child s p parent).names ≡ length (with_child s p parent).buses)
      × ((c r m : ℕ) → Line s c r m → Line (with_child s p parent) c r m)
unfolding with_child
construct_bus-Line services s w n p parent even has_parent dead invalid = (
  construct_bus-with_child services s w n p parent even has_parent,
  rw (sym even) (has_child s p parent even),
  up (dead_letter-Forwards s p parent even) (kept-Line s p parent dead),
  up (invalid_message-Forwards s p parent even) (kept-Line s p parent invalid),
  length-snoc s.names _ ∙ ap suc even ∙ sym (length-snoc s.buses _),
  λ c r m l. kept-Line s p parent l,
)
