-- ===== src/Gateways/Reply.antt =====
-- gateways.js: from a gateway's request, through a service, to the promise that the gateway returned.
use msgs.Gateways
use msgs.Js.Value.{truthy}
use msgs.Bus.Channel.Delivered.{send-handled}
use msgs.Bus.Handler.Results.{handle-nothing, handle-result, handle-error}
use msgs.Dispatchers.Direct
use msgs.Gateways.{
  GatewayBus, Deferreds, Services, Target, resolving, rejecting, serving, inbound_gateway, send,
  wiring_of, target_transform, target_output, reply_headers,
}
use msgs.Message.{
  new_message, Factory, Message, clone, header, mixin, mixin_headers, mixin_message, stamp, wrap,
}
use msgs.Base.{
  List, [], get_elem?, length, refl, some, suc, zero, ℕ, ◌++◌, ◌∷◌, ◌≡◌, Bool-cases, if◌then◌else◌,
  inl, inr, ap, ◌∙◌,
}
use msgs.Js.Value.{Value}
use msgs.Js.Object.{Object, assign, get, has, put}
use msgs.Js.Effect.{ok, Js, Outcome, out_of_fuel, throw}
use msgs.Bus.Handler.{handle, as_value}
use msgs.Bus.Kinds.{outbound_adapter}
use msgs.Bus.Handler.Errors.{next_error, next_output}
use msgs.Js.Text.{text}

get_elem?-append :
    {A : Type 0} (xs ys : List A) (i : ℕ) (a : A)
    → get_elem? xs i ≡ some a
    → get_elem? (xs ++ ys) i ≡ some a
get_elem?-append [] ys i a p = absurd (cc p)
get_elem?-append (x ∷ xs) ys zero a p = p
get_elem?-append (x ∷ xs) ys (suc i) a p = get_elem?-append xs ys i a p

get_elem?-last : {A : Type 0} (xs : List A) (a : A) → get_elem? (xs ++ a ∷ []) (length xs) ≡ some a
get_elem?-last [] a = refl
get_elem?-last (x ∷ xs) a = get_elem?-last xs a

module _ {D H W : Type 0} (deferreds : Deferreds D W) (services : Services D H W) (n : ℕ) where
  -- The bus whose next message is another one.
  abbrev counted : GatewayBus D H → Factory → GatewayBus D H
  counted b f = record b { factory = f }

  abbrev deliver : Target D H → Message → Js (GatewayBus D H × W) (Unit {0})
  deliver t m =
      handle (Gateways.send deferreds services n) (target_transform deferreds services t)
        (target_output deferreds services t) Value.undef m Value.undef

  -- What is sent to a direct channel of the bus, once its handler comes back.
  send-delivered :
      (b : GatewayBus D H) (w : W) (c : ℕ) (t : Target D H) (q : Value) (hs : Object Value)
      (s : GatewayBus D H × W)
      → get_elem? b.channels c ≡ some t
      → deliver t (new_message b.factory q hs).0 (counted b (new_message b.factory q hs).1, w)
        ≡ (ok tt, s)
      → Gateways.send deferreds services (suc n) (Value.channel_ref c) q hs (b, w) ≡ (ok tt, s)
  unfolding Gateways.send wiring_of Direct.dispatch
  send-delivered b w c t q hs s p r = rw p (
      send-handled (λ m. Direct.dispatch (deliver t m))
        (wiring_of deferreds services (Gateways.send deferreds services n) c t)
        (new_message b.factory q hs).0 (counted b (new_message b.factory q hs).1, w) s (rw r refl))

  -- A message to the channel of a promise settles it with the payload.
  send-resolving :
      (b : GatewayBus D H) (w : W) (c : ℕ) (d : D) (q v : Value) (hs : Object Value)
      → get_elem? b.channels c ≡ some (resolving d)
      → (new_message b.factory q hs).0.payload ≡ v
      → Gateways.send deferreds services (suc n) (Value.channel_ref c) q hs (b, w)
        ≡ (ok tt, (counted b (new_message b.factory q hs).1, deferreds.resolve d v w))
  unfolding target_transform outbound_adapter truthy
  send-resolving b w c d q v hs p e =
      send-delivered b w c (resolving d) q hs _ p (
        handle-nothing (Gateways.send deferreds services n) _ _ Value.undef Value.undef _ _ _
          Value.undef refl refl)
      ∙ ap (λ x. (ok tt, (counted b (new_message b.factory q hs).1, deferreds.resolve d x w))) e

  send-rejecting :
      (b : GatewayBus D H) (w : W) (c : ℕ) (d : D) (q v : Value) (hs : Object Value)
      → get_elem? b.channels c ≡ some (rejecting d)
      → (new_message b.factory q hs).0.payload ≡ v
      → Gateways.send deferreds services (suc n) (Value.channel_ref c) q hs (b, w)
        ≡ (ok tt, (counted b (new_message b.factory q hs).1, deferreds.reject d v w))
  unfolding target_transform outbound_adapter truthy
  send-rejecting b w c d q v hs p e =
      send-delivered b w c (rejecting d) q hs _ p (
        handle-nothing (Gateways.send deferreds services n) _ _ Value.undef Value.undef _ _ _
          Value.undef refl refl)
      ∙ ap (λ x. (ok tt, (counted b (new_message b.factory q hs).1, deferreds.reject d x w))) e

-- A value that is no message.
abbrev pub IsData : Value → Type 0
IsData v = (hs : Object Value) → wrap v hs ≡ record { payload = v; headers = hs }

new_message-data :
    (f : Factory) (v : Value) (hs : Object Value)
    → IsData v
    → (new_message f v hs).0 ≡ record { payload = v; headers = (stamp f hs).0 }
unfolding new_message
new_message-data f v hs h = h (stamp f hs).0

-- What a message that a gateway sends says of where to answer.
request-headers :
    (f : Factory) (q reply error : Value) (k : ℕ)
    → IsData q
    → let m = (new_message f q (reply_headers reply error k)).0 in
      (header m (text "replyChannel") ≡ reply)
      × (header m (text "errorChannel") ≡ error)
      × (m.payload ≡ q)
unfolding header stamp reply_headers get has put assign clone mixin
request-headers f q reply error k h =
    rw (new_message-data f q (reply_headers reply error k) h) (refl, refl, refl)

new_message-as_value :
    (f : Factory) (m : Message) (hs : Object Value)
    → (new_message f (as_value m) hs).0.payload ≡ m.payload
unfolding new_message wrap mixin_headers mixin_message
new_message-as_value f m hs = refl

-- A service comes back with a value that is no message, or throws.
abbrev pub Answers : Outcome Value → Type 0
Answers (ok v) = IsData v
Answers (throw e) = Unit
Answers out_of_fuel = ⊥

module _ {D H W : Type 0} (deferreds : Deferreds D W) (services : Services D H W) where
  -- What becomes of a promise: a true answer fulfils it, an error rejects it with the payload of the
  -- request, and a false answer leaves it as it is.
  abbrev pub settled : D → Value → Outcome Value → W → W
  settled d request (ok v) w = if truthy v then deferreds.resolve d v w else w
  settled d request (throw e) w = deferreds.reject d request w
  settled d request out_of_fuel w = w

  module _ (n : ℕ) (b : GatewayBus D H) (w w' : W) (cr ce : ℕ) (d : D) (h : H) (m : Message)
      (to : header m (text "replyChannel") ≡ Value.channel_ref cr)
      (err : header m (text "errorChannel") ≡ Value.channel_ref ce)
      (pr : get_elem? b.channels cr ≡ some (resolving d))
      (pe : get_elem? b.channels ce ≡ some (rejecting d)) where
    -- A service's handler answers where the message says.
    deliver-serving :
        (r : Outcome Value)
        → services.serve h m w ≡ (r, w')
        → Answers r
        → (b' : GatewayBus D H) × (deliver deferreds services (suc n) (serving h) m (b, w)
            ≡ (ok tt, (b', settled d m.payload r w')))
    unfolding target_transform target_output next_output next_error truthy
    deliver-serving (ok v) p a = elim (Bool-cases (truthy v)) [
      | inl t ↦ (
        counted deferreds services (suc n) b (new_message b.factory v m.headers).1,
        rw t (
            handle-result (Gateways.send deferreds services (suc n)) _ Value.undef Value.undef
              Value.undef m (b, w) (b, w') v _ (rw p refl) t (rw to refl)
              (rw to (
                send-resolving deferreds services n b w' cr d v v m.headers pr
                  (ap (λ x. x.payload) (new_message-data b.factory v m.headers a))))),
      )
      | inr t ↦ (
        b,
        rw t (
            handle-nothing (Gateways.send deferreds services (suc n)) _ Value.undef Value.undef
              Value.undef m (b, w) (b, w') v (rw p refl) t),
      )
    ]
    deliver-serving (throw e) p a = (
      counted deferreds services n b
          (new_message b.factory (as_value m) ((text "error", e) ∷ [])).1,
      handle-error (Gateways.send deferreds services (suc n)) _ Value.undef Value.undef Value.undef
            m (b, w) (b, w') e (rw p refl) (rw err refl)
          ∙ rw err (
              send-rejecting deferreds services n b w' ce d (as_value m) m.payload
                ((text "error", e) ∷ []) pe
                (new_message-as_value b.factory m ((text "error", e) ∷ []))),
    )
    deliver-serving out_of_fuel p a = absurd a

  -- The request of a gateway that has made its two channels.
  abbrev pub request : GatewayBus D H → D → Value → Message
  request b d payload =
      (new_message b.factory payload (
        reply_headers (Value.channel_ref (length b.channels))
          (Value.channel_ref (length (b.channels ++ resolving d ∷ []))) b.counter)).0

  -- A gateway to a direct channel whose handler is a service without channels of its own, for a
  -- payload that is no message, with fuel for two sends, one in the other, or more: the function
  -- returns the promise that it made, and the service is called once with the request. If its answer
  -- is a true value, which is no message, the promise is fulfilled with it; if the service throws,
  -- the promise is rejected, with the payload of the request in place of the error; and if the answer
  -- is a false value, the promise is not settled.
  pub inbound_gateway-settles :
      (n : ℕ) (b : GatewayBus D H) (w : W) (c : ℕ) (h : H) (payload : Value)
      → get_elem? b.channels c ≡ some (serving h)
      → IsData payload
      → let (d, w1) = deferreds.defer w in
        let (r, w2) = services.serve h (request b d payload) w1 in
        Answers r
        → let (result, (b', w')) =
            inbound_gateway deferreds services (suc (suc n)) (Value.channel_ref c) payload (b, w) in
          (result ≡ ok d) × (w' ≡ settled d payload r w2)
  unfolding inbound_gateway
  inbound_gateway-settles n b w c h payload p plain answers =
      let (d, w1) = deferreds.defer w in
      let m = request b d payload in
      let (to, err, same) =
        request-headers b.factory payload (Value.channel_ref (length b.channels))
          (Value.channel_ref (length (b.channels ++ resolving d ∷ []))) b.counter plain in
      let b1 : GatewayBus D H = record b {
        channels = (b.channels ++ resolving d ∷ []) ++ rejecting d ∷ [];
        counter = suc b.counter;
      } in
      let (b', q) =
        deliver-serving n
          (counted deferreds services (suc n) b1
            (new_message b.factory payload (
              reply_headers (Value.channel_ref (length b.channels))
                (Value.channel_ref (length (b.channels ++ resolving d ∷ []))) b.counter)).1)
          w1 (services.serve h m w1).1 (length b.channels) (length (b.channels ++ resolving d ∷ []))
          d h m to err
          (get_elem?-append (b.channels ++ resolving d ∷ []) (rejecting d ∷ []) (length b.channels)
            (resolving d) (get_elem?-last b.channels (resolving d)))
          (get_elem?-last (b.channels ++ resolving d ∷ []) (rejecting d)) (services.serve h m w1).0
          refl answers in
      rw
        (send-delivered deferreds services (suc n) b1 w1 c (serving h) payload _ _
          (get_elem?-append (b.channels ++ resolving d ∷ []) (rejecting d ∷ []) c (serving h)
            (get_elem?-append b.channels (resolving d ∷ []) c (serving h) p))
          q)
        (refl, ap (λ v. settled d v (services.serve h m w1).0 (services.serve h m w1).1) same)
