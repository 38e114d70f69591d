-- ===== src/System/DeadLetters/Root.antt =====
-- msgs.js: a message that nobody takes, from its channel up to the dead letters of an ancestor.
use msgs.Base.{
  ℕ, zero, suc, false, none, some, [], ◌≡◌, refl, ◌∙◌, get_elem?, eqb, nat_eq, ◌==◌, if◌then◌else◌,
}
use msgs.Js.Text.{Str, str_eq, text}
use msgs.Js.Value.{Value}
use msgs.Js.Object.{Object, get}
use msgs.Js.Effect.{ok}
use msgs.Message.{Message, Factory, new_message, id_text}
use msgs.Bus.Channel
use msgs.Bus.Handler.{as_value}
use msgs.Bus.Names.{resolve_channel, send_through}
use msgs.Dispatchers.Broadcast
use msgs.Dispatchers.Unicast
use msgs.Dispatchers.Exchange.Idle.{dispatch-idle}
use msgs.Dispatchers.Subscribable.{handlers_copy}
use msgs.System.{
  System, BusState, ChannelState, Dispatcher, broadcast, unicast, exchange, Matcher, set_at,
  component_of, make_message,
}
use msgs.System.Sending.{Services, send, channel_send, wiring_of, dispatch_by, topics_of}
use msgs.System.Places.{get-set_at, get-set_at_self}
use msgs.System.DeadLetters.{Forwards, Line, here, up, forwarded, channel_lem}
use msgs.System.DeadLetters.Letters.{
  IsLetter, forwarded-IsLetter, get-forwarded, payload-forwarded, renewed, renewed-IsLetter,
  get-renewed, payload-renewed, new_message-Distinct,
}

-- A dispatcher without handlers.
pub data IsIdle : Dispatcher → Type 0 where
  idle_broadcast : IsIdle (broadcast (some []))
  idle_unicast : IsIdle (unicast (some []))
  idle_exchange : (m : Matcher) → IsIdle (exchange m (some []))

-- What arrives so many generations above.
unfoldable pub forwarded_times : ℕ → Message → Message
forwarded_times zero m = m
forwarded_times (suc k) m = forwarded_times k (forwarded m)

-- The fuel for so many generations.
abbrev pub deeper : ℕ → ℕ → ℕ
deeper zero n = n
deeper (suc k) n = suc (deeper k n)

-- The program after the bus `b` has counted messages.
abbrev pub counted : System → ℕ → BusState → Factory → System
counted s b bus f = record s { buses = set_at s.buses b (record bus { factory = f }) }

module _ (s : System) (b : ℕ) (bus : BusState) (f : Factory)
    (has_bus : get_elem? s.buses b ≡ some bus) where
  counted-Forwards : (d e : ℕ) → Forwards s d e → Forwards (counted s b bus f) d e
  counted-Forwards d e g =
      let (v, p) =
        get-set_at s.buses b g.bus bus (record bus { factory = f }) g.bus_state has_bus g.has_bus in
      record {
        bus = g.bus;
        bus_state = v;
        handler = g.handler;
        type = g.type;
        has_bus = p;
        has_channel = g.has_channel;
        has_handler = g.has_handler;
      }

  counted-Line : {d r k : ℕ} → Line s d r k → Line (counted s b bus f) d r k
  counted-Line here = here
  counted-Line (up g l) = up (counted-Forwards _ _ g) (counted-Line l)

module _ {W : Type 0} (services : Services W) (w : W) (n : ℕ) (s' : System × W) where
  -- A letter that arrives at the end of a line.
  line_lem :
      (s : System) {d r k : ℕ}
      → Line s d r k
      → (m : Message) → IsLetter m
      → channel_send services (send services n) n r (forwarded_times k m) (s, w) ≡ (ok tt, s')
      → channel_send services (send services (deeper k n)) (deeper k n) d m (s, w) ≡ (ok tt, s')
  unfolding forwarded_times
  line_lem s here m i p = p
  line_lem s (up {k = k} f l) m i p =
      channel_lem services s w (deeper k n) s' _ _ m f i.1
        (line_lem s l (forwarded m) (forwarded-IsLetter m i) p)

  make_message_lem :
      (s : System) (b : ℕ) (bus : BusState) (payload : Value) (headers : Object Value)
      → get_elem? s.buses b ≡ some bus
      → make_message b payload headers (s, w) ≡ (
        ok (new_message bus.factory payload headers).0,
        (counted s b bus (new_message bus.factory payload headers).1, w),
      )
  make_message_lem s b bus payload headers p = rw p refl

  -- A channel of the bus `b` with this dispatcher and no taps.
  abbrev pub untapped_channel : ℕ → Dispatcher → Str → ChannelState
  untapped_channel b d type = record { bus = b; dispatcher = d; taps = none; type = type }

  -- An idle dispatcher does not handle the message.
  idle_lem :
      (s : System) (b c : ℕ) (type : Str) (m : Message) (N : ℕ) (d : Dispatcher)
      → IsIdle d
      → get_elem? s.channels c ≡ some (untapped_channel b d type)
      → dispatch_by services (send services N) N c (untapped_channel b d type) m d (s, w)
        ≡ (ok false, (s, w))
  unfolding dispatch_by Broadcast.dispatch Unicast.dispatch handlers_copy
  idle_lem s b c type m N _ idle_broadcast h = refl
  idle_lem s b c type m N _ idle_unicast h = refl
  idle_lem s b c type m N _ (idle_exchange matcher) h =
      dispatch-idle (topics_of services c) _ _ _ (s, w) (rw (h, topics_of) refl)

  -- What the channel does with a message then.
  unhandled_lem :
      (s : System) (b c : ℕ) (bus : BusState) (type : Str) (m : Message) (N : ℕ) (d : Dispatcher)
      → IsIdle d
      → get_elem? s.buses b ≡ some bus
      → get_elem? s.channels c ≡ some (untapped_channel b d type)
      → eqb c bus.dead_letter_channel ≡ false
      → send services N b (Value.channel_ref bus.dead_letter_channel) (as_value m) [] (s, w)
        ≡ (ok tt, s')
      → channel_send services (send services N) N c m (s, w) ≡ (ok tt, s')
  unfolding channel_send wiring_of Channel.send
  unhandled_lem s b c bus type m N d i hb hc ne p =
      rw (hc, hb) (rw hc (rw (idle_lem s b c type m N d i hc) (rw ne (rw p refl))))

  -- A message that is sent to a channel.
  send_ref :
      (s : System) (b c N : ℕ) (bus : BusState) (payload : Value) (headers : Object Value)
      → get_elem? s.buses b ≡ some bus
      → channel_send services
          (send services N)
          N
          c
          (new_message bus.factory payload headers).0
          (counted s b bus (new_message bus.factory payload headers).1, w)
        ≡ (ok tt, s')
      → send services (suc N) b (Value.channel_ref c) payload headers (s, w) ≡ (ok tt, s')
  unfolding send component_of resolve_channel send_through
  send_ref s b c N bus payload headers h p = rw (make_message_lem s b bus payload headers h) p

-- The message that an ancestor gets, so many generations above the bus.
unfoldable pub letter : BusState → Value → Object Value → ℕ → Message
letter bus payload headers k =
    let (m, f) = new_message bus.factory payload headers in forwarded_times k (renewed f m)

-- The program after the bus has made the message and the dead letter.
unfoldable pub after_letter : System → ℕ → BusState → Value → Object Value → System
after_letter s b bus payload headers =
    let (m, f) = new_message bus.factory payload headers in
    let bus' = record bus { factory = f } in
    counted (counted s b bus f) b bus' (new_message f (as_value m) []).1

after_letter-Line :
    (s : System) (b : ℕ) (bus : BusState) (payload : Value) (headers : Object Value) {d r k : ℕ}
    → get_elem? s.buses b ≡ some bus
    → Line s d r k
    → Line (after_letter s b bus payload headers) d r k
unfolding after_letter
after_letter-Line s b bus payload headers p l =
    let (m, f) = new_message bus.factory payload headers in
    let bus' = record bus { factory = f } in
    counted-Line (counted s b bus f) b bus' (new_message f (as_value m) []).1
      (get-set_at_self s.buses b bus bus' p) (counted-Line s b bus f p l)

forwarded_times_keeps :
    (k : ℕ) (m : Message)
    → IsLetter m
    → ((forwarded_times k m).payload ≡ m.payload)
      × ((j : Str) → get (forwarded_times k m).headers j ≡ get m.headers j)
unfolding forwarded_times
forwarded_times_keeps zero m i = (refl, λ j. refl)
forwarded_times_keeps (suc k) m i =
    let (payload, headers) = forwarded_times_keeps k (forwarded m) (forwarded-IsLetter m i) in
    (payload ∙ payload-forwarded m, λ j. headers j ∙ get-forwarded m j i.0)

-- A message to a channel without taps whose dispatcher has no handlers, and which is not the dead
-- letter channel of its bus: it arrives at the channel at the end of the line of dead letter
-- channels that forward to their parents', however many generations above. If the send there
-- returns, so does the send on the bus, with the state that the send there leaves, if two sends
-- more than the send there needs and one for each generation may go in one another. What arrives
-- has the payload of the message that was sent and all its headers, except that the bus gave it a
-- new id.
pub send-letter :
    {W : Type 0} (services : Services W) (s : System) (w : W) (s' : System × W) (b c n : ℕ)
    (bus : BusState) (d : Dispatcher) (type : Str) (payload : Value) (headers : Object Value)
    {r k : ℕ}
    → IsIdle d
    → get_elem? s.buses b ≡ some bus
    → get_elem? s.channels c ≡ some (record { bus = b; dispatcher = d; taps = none; type = type })
    → eqb c bus.dead_letter_channel ≡ false
    → Line s bus.dead_letter_channel r k
    → channel_send services
        (send services n)
        n
        r
        (letter bus payload headers k)
        (after_letter s b bus payload headers, w)
      ≡ (ok tt, s')
    → (send services (suc (suc (deeper k n))) b (Value.channel_ref c) payload headers (s, w)
        ≡ (ok tt, s'))
      × ((letter bus payload headers k).payload
          ≡ (new_message bus.factory payload headers).0.payload)
      × ((j : Str)
          → get (letter bus payload headers k).headers j ≡ (
              if text "id" == j
              then some (
                  Value.str (
                    id_text
                      (new_message bus.factory payload headers).1.bus_id
                      (new_message bus.factory payload headers).1.next_message))
              else get (new_message bus.factory payload headers).0.headers j))
unfolding letter after_letter renewed
send-letter services s w s' b c n bus d type payload headers {k = k} i hb hc ne l p =
    let (m, f) = new_message bus.factory payload headers in
    let distinct = new_message-Distinct bus.factory payload headers in
    let is_letter = renewed-IsLetter f m distinct in
    let bus' = record bus { factory = f } in
    let has_bus' = get-set_at_self s.buses b bus bus' hb in
    let line = after_letter-Line s b bus payload headers hb l in
    let (kept, headers_kept) = forwarded_times_keeps k (renewed f m) is_letter in
    (
      send_ref services w n s' s b c (suc (deeper k n)) bus payload headers hb (
          unhandled_lem services w n s' (counted s b bus f) b c bus' type m (suc (deeper k n)) d i
            has_bus' hc ne
            (send_ref services w n s' (counted s b bus f) b bus.dead_letter_channel (deeper k n)
              bus' (as_value m) [] has_bus'
              (line_lem services w n s' (after_letter s b bus payload headers) line (renewed f m)
                is_letter p))),
      kept ∙ payload-renewed f m,
      λ j. headers_kept j ∙ get-renewed f m j distinct,
    )
