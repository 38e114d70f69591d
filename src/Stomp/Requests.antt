-- ===== src/Stomp/Requests.antt =====
-- channels/dispatchers/stomp.js: what the server has been told, after the calls of a connected
-- dispatcher's users.

use msgs.Stomp.Histories.{
  dispatches, receives, destroys, Call, after_call, after_calls, subscribes, unsubscribes,
}
use msgs.Stomp.Dispatcher.Agreement.{
  Agrees, IsAgreement, TablesAgree, connected, served_by, subscribe-Agrees, unsubscribe-Agrees,
}
use msgs.Stomp.Client.{Client, Tables, normalize_ack}
use msgs.Base.{
  All, Bool, Eq, List, Option, [], false, nat_eq, none, refl, some, true, ℕ, ◌∷◌, ◌≡◌, Bool-cases,
  arith, eq_iff, inl, inr, subst, sym, ◌==◌,
}
use msgs.Message.{Factory}
use msgs.Stomp.Protocol.{OpenSubscriptions}
use msgs.Js.Object.{get}
use msgs.Js.Value.{Value}
use msgs.Stomp.Frame.Split.{IsInline}
use msgs.Js.Text.{str_eq, text}

auto-IsInline : IsInline (text "auto")
auto-IsInline = omega arith

normalize_ack-IsInline : (v : Value) → IsInline (normalize_ack v)
unfolding normalize_ack
normalize_ack-IsInline (Value.str s) = elim (Bool-cases (s == text "client")) [
  | inl p ↦ rw p (subst IsInline (sym ((eq_iff s (text "client")).0 p)) (omega arith))
  | inr p ↦ elim (Bool-cases (s == text "client-individual")) [
    | inl q ↦
        rw (p, q) (subst IsInline (sym ((eq_iff s (text "client-individual")).0 q)) (omega arith))
    | inr q ↦ rw (p, q) auto-IsInline
  ]
]
normalize_ack-IsInline Value.undef = auto-IsInline
normalize_ack-IsInline Value.null = auto-IsInline
normalize_ack-IsInline Value.nan = auto-IsInline
normalize_ack-IsInline Value.type_error = auto-IsInline
normalize_ack-IsInline (Value.bool _) = auto-IsInline
normalize_ack-IsInline (Value.num _) = auto-IsInline
normalize_ack-IsInline (Value.error_object _) = auto-IsInline
normalize_ack-IsInline (Value.channel_ref _) = auto-IsInline
normalize_ack-IsInline (Value.handler_ref _) = auto-IsInline
normalize_ack-IsInline (Value.array _) = auto-IsInline
normalize_ack-IsInline (Value.message_object _ _) = auto-IsInline

module _ {H : Type 0} ⦃e : Eq H⦄ where
  -- A user's call. A destination that has a line feed, or a carriage return, would break the frame.
  abbrev pub IsRequest : Call H → Type 0
  IsRequest (subscribes d h) = IsInline d
  IsRequest (unsubscribes d h) = Unit
  IsRequest _ = ⊥

  -- No subscription yet.
  abbrev pub no_tables : Tables H
  no_tables = record { subscriptions = []; destinations = []; receipts = [] }

  no_tables-IsAgreement : IsAgreement no_tables 0 []
  unfolding get
  no_tables-IsAgreement = record {
    consistent = record {
      subscriptions_distinct = tt;
      destinations_distinct = tt;
      below = λ d id p. absurd (cc p);
      served = λ d id p. absurd (cc p);
      alone = λ d d' id p q. absurd (cc p);
      known = λ k s p. absurd (cc p);
    };
    distinct = tt;
    told = λ d id p. absurd (cc p);
    meant = λ k d p. absurd (cc p);
  }

  module _ (v : Value) where
    after_request-Agrees :
        (call : Call H) (t : Option (Tables H)) (ready : Bool) (n : ℕ) (f : Factory)
        (o : OpenSubscriptions)
        → IsRequest call
        → ready ≡ true
        → TablesAgree t n o
        → Agrees (
            after_call
              (normalize_ack v)
              served_by
              call
              (record { tables = t; ready = ready; counter = n; factory = f }, o))
    unfolding after_call
    after_request-Agrees call none ready n f o i p a = absurd a
    after_request-Agrees call (some t) false n f o i p a = absurd (cc p)
    after_request-Agrees (dispatches _) (some t) true n f o i p a = absurd i
    after_request-Agrees (receives _) (some t) true n f o i p a = absurd i
    after_request-Agrees destroys (some t) true n f o i p a = absurd i
    after_request-Agrees (subscribes d h) (some t) true n f o i p a =
        subscribe-Agrees (normalize_ack v) d h t n f o (normalize_ack-IsInline v) i a
    after_request-Agrees (unsubscribes d h) (some t) true n f o i p a =
        unsubscribe-Agrees (normalize_ack v) d h t n f o a

    after_requests-Agrees :
        (calls : List (Call H)) (s : Client H × OpenSubscriptions)
        → All IsRequest calls
        → Agrees s
        → Agrees (after_calls (normalize_ack v) served_by calls s)
    unfolding after_calls
    after_requests-Agrees [] s i a = a
    after_requests-Agrees (call ∷ calls) (c, o) (i, is) (p, a) =
        after_requests-Agrees calls _ is
          (after_request-Agrees call c.tables c.ready c.counter c.factory o i p a)

    -- Whatever subscribes and unsubscribes reach a connected dispatcher without subscriptions, for
    -- destinations without line ends, under any acknowledgment policy: the SUBSCRIBE and UNSUBSCRIBE
    -- frames that it sends, read by a server one by one, leave open at the server exactly the
    -- subscriptions of the dispatcher's table, each with its destination; so a destination is open at
    -- the server once, as long as a handler of it is left here.
    pub after_calls-Agrees :
        (calls : List (Call H)) (f : Factory)
        → All IsRequest calls
        → Agrees (after_calls (normalize_ack v) served_by calls (connected no_tables 0 f, []))
    after_calls-Agrees calls f i =
        after_requests-Agrees calls (connected no_tables 0 f, []) i (refl, no_tables-IsAgreement)
