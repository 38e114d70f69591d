-- ===== src/Stomp/Dispatcher/Safety.antt =====
-- channels/dispatchers/stomp.js: what holds of the dispatcher's tables between its calls, whatever the
-- code that it calls does.

use msgs.Dispatchers.Subscribable
use msgs.Dispatchers.Subscribable.Histories.{contains, IsSetOf}
use msgs.Js.Decimal.{decimal}
use msgs.Js.Object.{get, put}
use msgs.Js.Effect.{Outcome, ok, throws, ◌>>=◌}
use msgs.Js.Preserves.{Preserves, bind-Preserves}
use msgs.Js.Text.{Str, str_eq, text}
use msgs.Message.{Factory, Message}
use msgs.Stomp.Client.{
  subscribed, unsubscribed, Client, Notice, Outside, Payload, Subscription, Tables, notify,
  send_command, send_if_ready, not_ready_error, build_frame, handler,
}
use msgs.Stomp.Dispatcher.{
  subscribe_frame, unsubscribe_frame, subscribe, unsubscribe, opened, closed, subscribe_at,
  subscribe_new, subscribe_known, notify_or_wait, unsubscribe_at, unsubscribe_from, leave,
}
use msgs.Stomp.Dispatcher.Consistency.{
  IsConsistent, grown-IsConsistent, updated-IsConsistent, opened-IsConsistent, closed-IsConsistent,
}
use msgs.Stomp.Dispatcher.Calls.{subscribe-IsLive, unsubscribe-IsSetOf}
use msgs.Base.{
  Bool, Eq, List, Option, Option-cases, inl, inr, [], ◌∷◌, ◌++◌, none, some, suc, true, false, ℕ,
  ◌≡◌, refl, nat_eq,
}
use msgs.Stomp.Frame.{build}

module _ {H : Type 0} ⦃e : Eq H⦄ where
  abbrev pub TablesHold : Option (Tables H) → ℕ → Type 0
  TablesHold none counter = Unit
  TablesHold (some t) counter = IsConsistent t.subscriptions t.destinations counter

  -- The tables of a dispatcher that is not destroyed fit together.
  abbrev pub Holds : {W : Type 0} → Client H × W → Type 0
  Holds (c, w) = TablesHold c.tables c.counter

  grown-TablesHold : (t : Option (Tables H)) (n : ℕ) → TablesHold t n → TablesHold t (suc n)
  grown-TablesHold none n h = tt
  grown-TablesHold (some t) n h = grown-IsConsistent h

-- What the dispatcher calls keeps the tables fitting together.
pub record IsRespectful {H W : Type 0} ⦃e : Eq H⦄ (outside : Outside H W) : Type 0 where
  pub output : (s : Str) → Preserves Holds (outside.send_output s)
  pub error : (s : Str) → Preserves Holds (outside.send_error s)
  pub notice : (s : Str) (p : Payload H) → Preserves Holds (outside.control s p)
  pub destruction : Preserves Holds outside.destroy_control
  pub delivery : (m : Message) (h : H) → Preserves Holds (outside.deliver m h)

module _ {H W : Type 0} ⦃e : Eq H⦄ (outside : Outside H W) (r : IsRespectful outside) where
  send_if_ready-Preserves : (s : Str) (b : Bool) → Preserves Holds (send_if_ready outside s b)
  unfolding send_if_ready
  send_if_ready-Preserves s true = r.output s
  send_if_ready-Preserves s false =
      bind-Preserves Holds (outside.send_error s) (λ _. throws not_ready_error) (r.error s)
        (λ _ w p. p)

  pub send_command-Preserves : (s : Str) → Preserves Holds (send_command outside s)
  unfolding send_command
  send_command-Preserves s w p = send_if_ready-Preserves s w.0.ready w p

  pub build_frame-Preserves :
      (build : Factory → Outcome Str × Factory)
      → Preserves (Holds {H = H}) (build_frame {H = H} {W = W} build)
  build_frame-Preserves build w p = p

  -- A frame is built and sent.
  pub build-send_command-Preserves :
      (build : Factory → Outcome Str × Factory)
      → Preserves
          (Holds {H = H})
          (do command ← build_frame {H = H} {W = W} build; send_command outside command)
  build-send_command-Preserves build =
      bind-Preserves Holds (build_frame build) (λ s. send_command outside s)
        (build_frame-Preserves build) send_command-Preserves

  pub notify-Preserves : (n : Notice H) → Preserves Holds (notify outside n)
  unfolding notify
  notify-Preserves (subscribed d h) = r.notice (text "subscribed!" ++ d) (handler h)
  notify-Preserves (unsubscribed d h) = r.notice (text "unsubscribed!" ++ d) (handler h)

  notify_or_wait-Holds :
      (ack : Str) (t : Tables H) (k : Str) (n : Notice H) (o : Option (List (Notice H)))
      (c : Client H) (w : W)
      → IsConsistent t.subscriptions t.destinations c.counter
      → Holds (notify_or_wait ack outside t k n o (c, w)).1
  unfolding notify_or_wait
  notify_or_wait-Holds ack t k n (some ns) c w v = v
  notify_or_wait-Holds ack t k n none c w v = notify-Preserves n (record c { tables = some t }, w) v

  subscribe_at-Holds :
      (ack : Str) (t : Tables H) (d : Str) (h : H) (c : Client H) (w : W)
      → IsConsistent t.subscriptions t.destinations c.counter
      → Holds (subscribe_at ack outside t d h (get t.destinations d) (c, w)).1
  unfolding subscribe_at subscribe_known subscribe_new Subscribable.subscribe contains opened
  subscribe_at-Holds ack t d h c w v = elim (Option-cases (get t.destinations d)) [
    | inl new ↦ rw new (
        build-send_command-Preserves (subscribe_frame ack d c.counter (suc c.counter))
          (
            record c {
              tables = some (opened t d h (some (h ∷ [])) c.counter (suc c.counter));
              counter = suc (suc c.counter);
            },
            w,
          )
          (grown-IsConsistent (
            opened-IsConsistent d (record { handlers = some (h ∷ []); receipt = suc c.counter }) v
              new (refl, tt))))
    | inr (id, p) ↦
        let (s, q, l) = v.served d id p in
        let (hs, joined, l') = subscribe-IsLive s.handlers h l in
        rw (p, q, joined)
          (notify_or_wait-Holds ack
            (record t {
              subscriptions = put t.subscriptions (decimal id) (record s { handlers = hs });
            })
            (decimal s.receipt) (subscribed d h) (get t.receipts (decimal s.receipt)) c w
            (updated-IsConsistent d id (record s { handlers = hs }) v p l'))
  ]

  unsubscribe_from-Holds :
      (ack : Str) (t : Tables H) (d : Str) (h : H) (id : ℕ) (s : Subscription H) (c : Client H)
      (w : W) (xs : List H)
      → IsConsistent t.subscriptions t.destinations c.counter
      → get t.destinations d ≡ some id
      → Subscribable.unsubscribe s.handlers h ≡ ok (some xs)
      → IsSetOf xs
      → Holds (unsubscribe_from ack outside t d h id (some s) (c, w)).1
  unfolding unsubscribe_from Subscribable.subscribed leave closed
  unsubscribe_from-Holds ack t d h id s c w [] v p gone live = rw gone (
      build-send_command-Preserves (unsubscribe_frame id c.counter)
        (
          record c { tables = some (closed t d h (decimal id) c.counter); counter = suc c.counter },
          w,
        )
        (grown-IsConsistent (closed-IsConsistent d id v p)))
  unsubscribe_from-Holds ack t d h id s c w (x ∷ xs) v p gone live = rw gone (
      notify-Preserves (unsubscribed d h)
        (
          record c {
            tables = some (record t {
              subscriptions =
                  put t.subscriptions (decimal id) (record s { handlers = some (x ∷ xs) });
            });
          },
          w,
        )
        (updated-IsConsistent d id (record s { handlers = some (x ∷ xs) }) v p live))

  unsubscribe_at-Holds :
      (ack : Str) (t : Tables H) (d : Str) (h : H) (c : Client H) (w : W)
      → IsConsistent t.subscriptions t.destinations c.counter
      → TablesHold c.tables c.counter
      → Holds (unsubscribe_at ack outside t d h (get t.destinations d) (c, w)).1
  unfolding unsubscribe_at
  unsubscribe_at-Holds ack t d h c w v v' = elim (Option-cases (get t.destinations d)) [
    | inl new ↦ rw new v'
    | inr (id, p) ↦
        let (s, q, l) = v.served d id p in
        let (xs, gone, live) = unsubscribe-IsSetOf s.handlers h l in
        rw (p, q) (unsubscribe_from-Holds ack t d h id s c w xs v p gone live)
  ]

  -- `subscribe` and `unsubscribe`, on the dispatcher's own tables.
  subscribe-Holds :
      (ack d : Str) (h : H) (o : Option (Tables H)) (ready : Bool) (n : ℕ) (f : Factory) (w : W)
      → TablesHold o n
      → Holds
          (subscribe ack outside d h
            (record { tables = o; ready = ready; counter = n; factory = f }, w)).1
  unfolding subscribe
  subscribe-Holds ack d h none ready n f w v = tt
  subscribe-Holds ack d h (some t) ready n f w v =
      subscribe_at-Holds ack t d h
        (record { tables = some t; ready = ready; counter = n; factory = f }) w v

  unsubscribe-Holds :
      (ack d : Str) (h : H) (o : Option (Tables H)) (ready : Bool) (n : ℕ) (f : Factory) (w : W)
      → TablesHold o n
      → Holds
          (unsubscribe ack outside d h
            (record { tables = o; ready = ready; counter = n; factory = f }, w)).1
  unfolding unsubscribe
  unsubscribe-Holds ack d h none ready n f w v = tt
  unsubscribe-Holds ack d h (some t) ready n f w v =
      unsubscribe_at-Holds ack t d h
        (record { tables = some t; ready = ready; counter = n; factory = f }) w v v

  pub subscribe-Preserves : (ack d : Str) (h : H) → Preserves Holds (subscribe ack outside d h)
  subscribe-Preserves ack d h (c, w) v =
      subscribe-Holds ack d h c.tables c.ready c.counter c.factory w v

  pub unsubscribe-Preserves : (ack d : Str) (h : H) → Preserves Holds (unsubscribe ack outside d h)
  unsubscribe-Preserves ack d h (c, w) v =
      unsubscribe-Holds ack d h c.tables c.ready c.counter c.factory w v
