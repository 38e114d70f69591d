-- ===== src/Adapters/Closing.antt =====
-- adapters/webSocket.js and adapters/stream.js: a gateway whose socket or stream is closed.
use msgs.Dispatchers.Subscribable
use msgs.Dispatchers.Subscribable.{Handlers}
use msgs.Dispatchers.Subscribable.Histories.{
  Call, subscribes, unsubscribes, contains, without, IsSetOf, subscribe_lem, unsubscribe_lem,
  concat-IsSetOf,
}
use msgs.Adapters.{Attachment, Listener, Options, run_listener, outbound}
use msgs.Adapters.Sockets.{
  web_socket_gateway, outbound_web_socket_adapter, inbound_web_socket_adapter, stream_gateway,
  outbound_stream_adapter, inbound_stream_adapter,
}
use msgs.Js.Text.{Str, str_eq, text}
use msgs.Js.Value.{Value, truthy}
use msgs.Base.{
  Bool-cases, List, [], arith, eq_refl, false, if◌then◌else◌, inl, inr, nat_eq, refl, some, suc,
  true, ℕ, ◌++◌, ◌==◌, ◌∷◌, ◌≡◌,
}
use msgs.Js.Effect.{Js, Outcome, ok, out_of_fuel, pure, throw}

-- The handlers of the input channel, the calls that each channel gets, the next handler, and what the
-- socket's listeners are.
pub record Watched : Type 0 where
  pub handlers : Handlers ℕ
  pub calls : List (Value × Call ℕ)
  pub next : ℕ
  pub listeners : List (Str × Listener ℕ)

-- The channel after a call of its dispatcher.
abbrev pub changed : Value × Call ℕ → Outcome (Handlers ℕ) → Js Watched (Unit {0})
changed call (ok hs) w = (ok tt, record w { handlers = hs; calls = w.calls ++ call ∷ [] })
changed call (throw e) w = (throw e, w)
changed call out_of_fuel w = (out_of_fuel, w)

-- The handlers are those of one channel, and the calls say of which; the socket calls its listeners in the order of registration.
abbrev pub watched : Attachment ℕ Watched
watched = record {
  new_handler = λ func w. (ok w.next, record w { next = suc w.next });
  subscribe = λ input h w. changed (input, subscribes h) (Subscribable.subscribe w.handlers h) w;
  unsubscribe =
      λ input h w. changed (input, unsubscribes h) (Subscribable.unsubscribe w.handlers h) w;
  listen = λ event l w. (ok tt, record w { listeners = w.listeners ++ (event, l) ∷ [] });
}

unfoldable pub fire : Str → List (Str × Listener ℕ) → Watched → Watched
fire event [] w = w
fire event ((k, l) ∷ ls) w =
    fire event ls
      (if k == event then ((run_listener watched (λ to v hs. pure tt) l 0 []).0 w).1 else w)

without-fresh : (hs : List ℕ) (n : ℕ) → contains hs n ≡ false → without (hs ++ n ∷ []) n ≡ hs
unfolding contains without
without-fresh [] n new = rw (eq_refl n) refl
without-fresh (x ∷ xs) n new = ground (arith, without-fresh xs n)

module _ (hs : List ℕ) (n : ℕ) where
  abbrev pub open_socket : Watched
  open_socket = record { handlers = some hs; calls = []; next = n; listeners = [] }

  -- The channel `input` gets a handler, and loses it when the socket is closed; no other channel does.
  abbrev pub TakesItsHandler : Value → Watched → Type 0
  TakesItsHandler input w =
      (w.handlers ≡ some (hs ++ n ∷ []))
      × (w.calls ≡ (input, subscribes n) ∷ [])
      × ((fire (text "close") w.listeners w).handlers ≡ some hs)
      × ((fire (text "close") w.listeners w).calls
          ≡ (input, subscribes n) ∷ (input, unsubscribes n) ∷ [])

module _ (hs : List ℕ) (n : ℕ) (set : IsSetOf hs) (new : contains hs n ≡ false) where
  joins : Subscribable.subscribe (some hs) n ≡ ok (some (hs ++ n ∷ []))
  joins = rw new at (subscribe_lem hs n)

  leaves : Subscribable.unsubscribe (some (hs ++ n ∷ [])) n ≡ ok (some hs)
  leaves =
      rw (without-fresh hs n new) at
        (unsubscribe_lem (hs ++ n ∷ []) n (concat-IsSetOf hs n new set))

  web_socket_gateway-TakesItsHandler :
      (data_of : Value → Outcome Value) (socket_send : Value → Js Watched Value) (opts : Options)
      → truthy opts.input ≡ true
      → TakesItsHandler hs n opts.input
          (web_socket_gateway watched data_of socket_send opts (open_socket hs n)).1
  unfolding web_socket_gateway outbound_web_socket_adapter inbound_web_socket_adapter outbound fire
      run_listener
  web_socket_gateway-TakesItsHandler data_of socket_send opts i =
      elim (Bool-cases (truthy opts.output)) [
        | inl o ↦ elim (Bool-cases (truthy opts.error)) [
          | inl x ↦ rw (i, o, x, joins) (refl, refl, rw leaves refl, rw leaves refl)
          | inr x ↦ rw (i, o, x, joins) (refl, refl, rw leaves refl, rw leaves refl)
        ]
        | inr o ↦ elim (Bool-cases (truthy opts.error)) [
          | inl x ↦ rw (i, o, x, joins) (refl, refl, rw leaves refl, rw leaves refl)
          | inr x ↦ rw (i, o, x, joins) (refl, refl, rw leaves refl, rw leaves refl)
        ]
      ]

  stream_gateway-TakesItsHandler :
      (write : Value → Js Watched Value) (opts : Options)
      → truthy opts.input ≡ true
      → TakesItsHandler hs n opts.input
          (stream_gateway watched (λ v. ok v) write opts (open_socket hs n)).1
  unfolding stream_gateway outbound_stream_adapter inbound_stream_adapter outbound fire run_listener
  stream_gateway-TakesItsHandler write opts i = elim (Bool-cases (truthy opts.output)) [
    | inl o ↦ elim (Bool-cases (truthy opts.error)) [
      | inl x ↦ rw (i, o, x, joins) (refl, refl, rw leaves refl, rw leaves refl)
      | inr x ↦ rw (i, o, x, joins) (refl, refl, rw leaves refl, rw leaves refl)
    ]
    | inr o ↦ elim (Bool-cases (truthy opts.error)) [
      | inl x ↦ rw (i, o, x, joins) (refl, refl, rw leaves refl, rw leaves refl)
      | inr x ↦ rw (i, o, x, joins) (refl, refl, rw leaves refl, rw leaves refl)
    ]
  ]

  -- A gateway between a web socket and an input channel, or between a stream and one, with handlers
  -- of which none stands twice, whatever else its options say: it subscribes one handler, to the
  -- input channel, where it stands at the end; and when the socket or the stream is closed, that
  -- handler is unsubscribed from the input channel and the handlers are those that were there
  -- before. No other channel is subscribed to or unsubscribed from.
  pub gateway-TakesItsHandler :
      (data_of : Value → Outcome Value) (socket_send write : Value → Js Watched Value)
      (opts : Options)
      → truthy opts.input ≡ true
      → TakesItsHandler hs n opts.input
          (web_socket_gateway watched data_of socket_send opts (open_socket hs n)).1
        × TakesItsHandler hs n opts.input
            (stream_gateway watched (λ v. ok v) write opts (open_socket hs n)).1
  gateway-TakesItsHandler data_of socket_send write opts i = (
    web_socket_gateway-TakesItsHandler data_of socket_send opts i,
    stream_gateway-TakesItsHandler write opts i,
  )
