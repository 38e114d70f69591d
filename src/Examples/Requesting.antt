-- ===== src/Examples/Requesting.antt =====
-- A gateway, a service that answers, and one that throws.

use msgs.Message.{wrap}
use msgs.Gateways.{Deferreds, GatewayBus, Services, serving, inbound_gateway}
use msgs.Gateways.Reply.{inbound_gateway-settles}
use msgs.Base.{
  Bool, List, Option, [], false, length, none, refl, some, suc, true, zero, ℕ, ◌++◌, ◌∷◌, ◌≡◌,
}
use msgs.Js.Text.{text}
use msgs.Js.Effect.{ok, pure, throw}
use msgs.Js.Value.{Value, truthy}

-- A promise that is settled keeps its value.
abbrev settle : List (Option (Bool × Value)) → ℕ → Bool × Value → List (Option (Bool × Value))
settle [] d v = []
settle (none ∷ ps) zero v = some v ∷ ps
settle (some u ∷ ps) zero v = some u ∷ ps
settle (p ∷ ps) (suc d) v = p ∷ settle ps d v

abbrev promises : Deferreds ℕ (List (Option (Bool × Value)))
promises = record {
  defer = λ w. (length w, w ++ none ∷ []);
  resolve = λ d v w. settle w d (true, v);
  reject = λ d v w. settle w d (false, v);
}

-- The handler 0 throws, and the others answer with their number.
abbrev answering : Services ℕ ℕ (List (Option (Bool × Value)))
answering = record {
  serve = λ h m w. (
    elim h [ zero ↦ throw (Value.error_object (text "no")) | suc n ↦ ok (Value.num (suc n)) ],
    w,
  );
  noop_channel = Value.channel_ref 90;
  dead_letter_channel = Value.channel_ref 91;
  invalid_message_channel = Value.channel_ref 92;
  undelivered = λ c m h. pure tt;
}

abbrev served_bus : GatewayBus ℕ ℕ
served_bus = record {
  channels = serving 0 ∷ serving 7 ∷ [];
  factory = record { bus_id = 0; next_message = 0 };
  counter = 0;
}

inbound_gateway-settles_example :
    let (r, (b, w)) =
      inbound_gateway promises answering 2
        (Value.channel_ref 1)
        (Value.str (text "ask"))
        (served_bus, []) in
    (r ≡ ok 0) × (w ≡ some (true, Value.num 7) ∷ [])
unfolding truthy wrap
inbound_gateway-settles_example =
    inbound_gateway-settles promises answering 0 served_bus [] 1 7 (Value.str (text "ask")) refl
      (λ hs. refl) (λ hs. refl)

request_is_rejected :
    let (r, (b, w)) =
      inbound_gateway promises answering 2
        (Value.channel_ref 0)
        (Value.str (text "ask"))
        (served_bus, []) in
    (r ≡ ok 0) × (w ≡ some (false, Value.str (text "ask")) ∷ [])
unfolding wrap
request_is_rejected =
    inbound_gateway-settles promises answering 0 served_bus [] 0 0 (Value.str (text "ask")) refl
      (λ hs. refl) tt
