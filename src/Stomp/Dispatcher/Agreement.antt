-- ===== src/Stomp/Dispatcher/Agreement.antt =====
-- channels/dispatchers/stomp.js: the tables of a connected dispatcher and what the server has been
-- told.
use msgs.Dispatchers.Subscribable
use msgs.Stomp.Dispatcher.{
  subscribe_at, subscribe_new, subscribe_known, notify_or_wait, unsubscribe_at, unsubscribe_from,
  leave, opened, closed, subscribe, unsubscribe,
}
use msgs.Stomp.Dispatcher.Consistency.{
  opened-IsConsistent, closed-IsConsistent, decimal-ne, get_kept, get_left, updated-IsConsistent,
}
use msgs.Base.{
  Bool-cases, Eq, Option, [], inl, inr, nat_eq, none, refl, some, suc, true, ℕ, ◌==◌, ◌∷◌, ◌≡◌, ap,
  arith, eq_iff, eq_refl, ne→eq-false, subst, sym, ◌≢◌, List, Option-cases, zero,
}
use msgs.Js.Object.Laws.{Distinct, delete-Distinct, put-Distinct, get-delete, get-put}
use msgs.Stomp.Dispatcher.Consistency.{IsConsistent, closed-IsConsistent, grown-IsConsistent}
use msgs.Stomp.Protocol.{OpenSubscriptions, on_client_frame}
use msgs.Js.Effect.{ok, pure}
use msgs.Stomp.Client.{
  subscribed, unsubscribed, Client, Outside, Tables, Notice, Subscription, notify, send_command,
  send_if_ready, unsubscribed,
}
use msgs.Js.Text.{Str, str_eq}
use msgs.Js.Object.{delete, get, put, Object}
use msgs.Js.Decimal.{decimal}
use msgs.Stomp.Protocol.Frames.{on_client_frame-subscribe_frame, on_client_frame-unsubscribe_frame}
use msgs.Dispatchers.Exchange.Topics.{IsLive}
use msgs.Stomp.Frame.Split.{IsInline}
use msgs.Dispatchers.Subscribable.Histories.{contains, IsSetOf}
use msgs.Stomp.Dispatcher.Calls.{subscribe-IsLive, unsubscribe-IsSetOf}
use msgs.Message.{Factory}

-- The output channel leads to a server, and nothing else is listened to.
abbrev pub served_by : {H : Type 0} → Outside H OpenSubscriptions
served_by = record {
  send_output = λ s w. (ok tt, (w.0, on_client_frame s w.1));
  send_error = λ s. pure tt;
  control = λ s p. pure tt;
  destroy_control = pure tt;
  deliver = λ m h. pure tt;
}

module _ {H : Type 0} ⦃e : Eq H⦄ where
  pub record IsAgreement (t : Tables H) (counter : ℕ) (o : OpenSubscriptions) : Type 0 where
    pub consistent : IsConsistent t.subscriptions t.destinations counter
    pub distinct : Distinct o
    pub told : (d : Str) (id : ℕ) → get t.destinations d ≡ some id → get o (decimal id) ≡ some d
    pub meant :
        (k d : Str)
        → get o k ≡ some d
        → (id : ℕ) × (k ≡ decimal id) × (get t.destinations d ≡ some id)

  abbrev pub TablesAgree : Option (Tables H) → ℕ → OpenSubscriptions → Type 0
  TablesAgree none counter o = ⊥
  TablesAgree (some t) counter o = IsAgreement t counter o

  -- The dispatcher is connected, and its tables say what the server was told.
  abbrev pub Agrees : Client H × OpenSubscriptions → Type 0
  Agrees (c, o) = (c.ready ≡ true) × TablesAgree c.tables c.counter o

  opened-IsAgreement :
      (t : Tables H) (n : ℕ) (o : OpenSubscriptions) (d : Str) (h : H)
      → IsAgreement t n o
      → get t.destinations d ≡ none
      → IsAgreement (opened t d h (some (h ∷ [])) n (suc n)) (suc (suc n)) (put o (decimal n) d)
  unfolding opened contains
  opened-IsAgreement t n o d h v new = record {
    consistent = grown-IsConsistent (
        opened-IsConsistent d (record { handlers = some (h ∷ []); receipt = suc n }) v.consistent
          new (refl, tt));
    distinct = put-Distinct o (decimal n) d v.distinct;
    told = λ d' id p. elim (Bool-cases (d == d')) [
      | inl same ↦
          let e : n ≡ id = ground (arith, get-put t.destinations d d' n, same, p) in
          rw (← e, get-put o (decimal n) (decimal n) d, eq_refl (decimal n))
            (ap some ((eq_iff d d').0 same))
      | inr apart ↦
          let old = rw (get-put t.destinations d d' n, apart) at p in
          let differs : n ≢ id = λ q. omega (arith, v.consistent.below d' id old, q) in
          rw (get-put o (decimal n) (decimal id) d, decimal-ne n id differs) (v.told d' id old)
    ];
    meant = λ k d' p. elim (Bool-cases (decimal n == k)) [
      | inl same ↦
          let e : d ≡ d' = ground (arith, get-put o (decimal n) k d, same, p) in
          (
            n,
            sym ((eq_iff (decimal n) k).0 same),
            rw (← e, get-put t.destinations d d n, eq_refl d) refl,
          )
      | inr apart ↦
          let (id, r, q) = v.meant k d' (rw (get-put o (decimal n) k d, apart) at p) in
          (id, r, ground (arith, get-put t.destinations d d' n, eq_iff d d', q, new))
    ];
  }

  closed-IsAgreement :
      (t : Tables H) (n : ℕ) (o : OpenSubscriptions) (d : Str) (h : H) (id : ℕ)
      → IsAgreement t n o
      → get t.destinations d ≡ some id
      → IsAgreement (closed t d h (decimal id) n) (suc n) (delete o (decimal id))
  unfolding closed
  closed-IsAgreement t n o d h id v p = record {
    consistent = grown-IsConsistent (closed-IsConsistent d id v.consistent p);
    distinct = delete-Distinct o (decimal id) v.distinct;
    told = λ d' id' q.
        let (apart, old) = get_left t.destinations v.consistent.destinations_distinct d d' id' q in
        let differs : id ≢ id' = λ i. apart (
          v.consistent.alone d d' id p (subst (λ j. get t.destinations d' ≡ some j) (sym i) old)) in
        rw (get-delete o (decimal id) (decimal id') v.distinct, decimal-ne id id' differs)
          (v.told d' id' old);
    meant = λ k d' q.
        let (apart, old) = get_left o v.distinct (decimal id) k d' q in
        let (id', r, q') = v.meant k d' old in
        (
          id',
          r,
          get_kept t.destinations v.consistent.destinations_distinct d d' k id id' p q' r
              (ne→eq-false (decimal id) k apart),
        );
  }

  updated-IsAgreement :
      (t : Tables H) (n : ℕ) (o : OpenSubscriptions) (d : Str) (id : ℕ) (s : Subscription H)
      (receipts : Object (List (Notice H)))
      → IsAgreement t n o
      → get t.destinations d ≡ some id
      → IsLive s.handlers
      → IsAgreement
          (record t { subscriptions = put t.subscriptions (decimal id) s; receipts = receipts })
          n
          o
  updated-IsAgreement t n o d id s receipts v p live = record {
    consistent = updated-IsConsistent d id s v.consistent p live;
    distinct = v.distinct;
    told = v.told;
    meant = v.meant;
  }

  abbrev pub connected : Tables H → ℕ → Factory → Client H
  connected t n f = record { tables = some t; ready = true; counter = n; factory = f }

  notify_or_wait-Agrees :
      (ack : Str) (t : Tables H) (k : Str) (waits : Notice H) (ns : Option (List (Notice H)))
      (n : ℕ) (f : Factory) (o : OpenSubscriptions) (t0 : Tables H)
      → ((receipts : Object (List (Notice H))) → IsAgreement (record t { receipts = receipts }) n o)
      → Agrees (notify_or_wait ack served_by t k waits ns (connected t0 n f, o)).1
  unfolding notify_or_wait notify
  notify_or_wait-Agrees ack t k waits (some ns) n f o t0 v = (refl, v _)
  notify_or_wait-Agrees ack t k (subscribed d h) none n f o t0 v = (refl, v t.receipts)
  notify_or_wait-Agrees ack t k (unsubscribed d h) none n f o t0 v = (refl, v t.receipts)

  pub subscribe-Agrees :
      (ack d : Str) (h : H) (t : Tables H) (n : ℕ) (f : Factory) (o : OpenSubscriptions)
      → IsInline ack
      → IsInline d
      → IsAgreement t n o
      → Agrees (subscribe ack served_by d h (connected t n f, o)).1
  unfolding subscribe subscribe_at subscribe_known subscribe_new Subscribable.subscribe contains
      send_command send_if_ready
  subscribe-Agrees ack d h t n f o a i v = elim (Option-cases (get t.destinations d)) [
    | inl new ↦
        let (s, p, q) = on_client_frame-subscribe_frame f ack d n n a i in
        rw (new, p, q o) (refl, opened-IsAgreement t n o d h v new)
    | inr (id, p) ↦
        let (s, q, l) = v.consistent.served d id p in
        let (hs, joined, l') = subscribe-IsLive s.handlers h l in
        rw (p, q, joined)
          (notify_or_wait-Agrees ack
            (record t {
              subscriptions = put t.subscriptions (decimal id) (record s { handlers = hs });
            })
            (decimal s.receipt) (subscribed d h) (get t.receipts (decimal s.receipt)) n f o t
            (λ receipts.
              updated-IsAgreement t n o d id (record s { handlers = hs }) receipts v p l'))
  ]

  -- A served destination's id is below the counter, so the next receipt is not 0.
  unsubscribe_from-Agrees :
      (ack d : Str) (h : H) (t : Tables H) (n : ℕ) (f : Factory) (o : OpenSubscriptions) (id : ℕ)
      (s : Subscription H) (xs : List H)
      → IsAgreement t n o
      → get t.destinations d ≡ some id
      → Subscribable.unsubscribe s.handlers h ≡ ok (some xs)
      → IsSetOf xs
      → Agrees (unsubscribe_from ack served_by t d h id (some s) (connected t n f, o)).1
  unfolding unsubscribe_from Subscribable.subscribed leave notify send_command send_if_ready
  unsubscribe_from-Agrees ack d h t n f o id s (x ∷ xs) v p gone live = rw gone (
    refl,
    updated-IsAgreement t n o d id (record s { handlers = some (x ∷ xs) }) t.receipts v p live,
  )
  unsubscribe_from-Agrees ack d h t zero f o id s [] v p gone live =
      absurd (omega (arith, v.consistent.below d id p))
  unsubscribe_from-Agrees ack d h t (suc n) f o id s [] v p gone live =
      let (command, q, r) = on_client_frame-unsubscribe_frame f id n in
      rw (gone, q, r o) (refl, closed-IsAgreement t (suc n) o d h id v p)

  pub unsubscribe-Agrees :
      (ack d : Str) (h : H) (t : Tables H) (n : ℕ) (f : Factory) (o : OpenSubscriptions)
      → IsAgreement t n o
      → Agrees (unsubscribe ack served_by d h (connected t n f, o)).1
  unfolding unsubscribe unsubscribe_at
  unsubscribe-Agrees ack d h t n f o v = elim (Option-cases (get t.destinations d)) [
    | inl new ↦ rw new (refl, v)
    | inr (id, p) ↦
        let (s, q, l) = v.consistent.served d id p in
        let (xs, gone, live) = unsubscribe-IsSetOf s.handlers h l in
        rw (p, q) (unsubscribe_from-Agrees ack d h t n f o id s xs v p gone live)
  ]
