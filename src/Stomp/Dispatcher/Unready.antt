-- ===== src/Stomp/Dispatcher/Unready.antt =====
-- channels/dispatchers/stomp.js: `subscribe` before the connection is ready.
use msgs.Stomp.Dispatcher.{
  subscribe, subscribe_at, subscribe_new, opened, subscribe_known, notify_or_wait, subscribe_frame,
}
use msgs.Dispatchers.Subscribable
use msgs.Dispatchers.Subscribable.Histories.{contains}
use msgs.Stomp.Client.{subscribed, send_command, send_if_ready, Tables, not_ready_error}
use msgs.Stomp.Dispatcher.Agreement.{served_by, connected}
use msgs.Stomp.Commands.{build_subscribe_frame, build_message, subscribe_headers, with_receipt}
use msgs.Message.{Factory, header, new_message}
use msgs.Base.{[], refl, ℕ, ◌∷◌, ◌≡◌, Eq, eq_refl, false, nat_eq, none, some, suc, true}
use msgs.Js.Object.{assign, get, put}
use msgs.Js.Text.{Str, str_eq}
use msgs.Stomp.Frame.{build}
use msgs.Js.Value.{truthy}
use msgs.Js.Effect.{ok, throw}
use msgs.Js.Decimal.{decimal}
use msgs.Js.Object.Laws.{get-put}
use msgs.Stomp.Dispatcher.Calls.{subscribe-IsLive}
use msgs.Stomp.Protocol.{OpenSubscriptions}

subscribe_frame-builds :
    (ack d : Str) (id n : ℕ) (f : Factory)
    → (s : Str) × ((subscribe_frame ack d id (suc n) f).0 ≡ ok s)
unfolding build_subscribe_frame build_message subscribe_headers with_receipt build header
    new_message put assign get truthy
subscribe_frame-builds [] d id n f = (_, refl)
subscribe_frame-builds (c ∷ ack) d id n f = (_, refl)

module _ {H : Type 0} ⦃e : Eq H⦄ where
  subscribe_opened :
      (ack d : Str) (h h' : H) (t : Tables H) (n : ℕ) (f : Factory) (o : OpenSubscriptions)
      → let r =
          subscribe ack served_by d h'
            (connected (opened t d h (some (h ∷ [])) n (suc n)) (suc (suc n)) f, o) in
        (r.0 ≡ ok tt) × (r.1.1 ≡ o)
  unfolding subscribe subscribe_at subscribe_known opened notify_or_wait contains
  subscribe_opened ack d h h' t n f o =
      let (hs, joined, l) = subscribe-IsLive (some (h ∷ [])) h' (refl, tt) in
      rw
        (
          get-put t.destinations d d n,
          eq_refl d,
          get-put t.subscriptions (decimal n) (decimal n)
              (record { handlers = some (h ∷ []); receipt = suc n }),
          eq_refl (decimal n),
          joined,
          get-put t.receipts (decimal (suc n)) (decimal (suc n)) (subscribed d h ∷ []),
          eq_refl (decimal (suc n)),
        )
        (refl, refl)

  -- While the connection is not ready, a subscribe to a new destination throws and the server is not
  -- told of it, but the destination is kept: when the connection is ready, a subscribe to it returns,
  -- and again nothing is sent.
  pub subscribe-subscribe_unready :
      (ack d : Str) (h h' : H) (t : Tables H) (n : ℕ) (f : Factory) (o : OpenSubscriptions)
      → get t.destinations d ≡ none
      → let (r, (c, o')) =
          subscribe ack served_by d h
            (record { tables = some t; ready = false; counter = n; factory = f }, o) in
        (r ≡ throw not_ready_error)
        × (o' ≡ o)
        × (let again = subscribe ack served_by d h' (record c { ready = true }, o') in
            (again.0 ≡ ok tt) × (again.1.1 ≡ o))
  unfolding subscribe subscribe_at subscribe_new Subscribable.subscribe contains send_command
      send_if_ready
  subscribe-subscribe_unready ack d h h' t n f o new =
      let (s, p) = subscribe_frame-builds ack d n n f in
      rw (new, p)
        (refl, refl, subscribe_opened ack d h h' t n (subscribe_frame ack d n (suc n) f).1 o)
