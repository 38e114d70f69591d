-- ===== src/Adapters/Numbers.antt =====
-- msgs.js, `inboundAdapter`: what the adapters send, event by event.
use msgs.Adapters.{Listener, sending, run_listener, Attachment}
use msgs.Bus.Kinds.{inbound_adapter}
use msgs.Base.{
  Bool, Bool-cases, List, [], append-nil, false, if◌then◌else◌, inl, inr, map, refl, suc, sym, true,
  ℕ, ◌++◌, ◌∷◌, ◌≡◌, append_assoc, ◌∙◌,
}
use msgs.Js.Effect.{Outcome, ok, pure}
use msgs.Bus.Handler.{Send}
use msgs.Js.Object.{Object}
use msgs.Js.Value.{Value}
use msgs.Message.{increment}
use msgs.Js.Text.{text}

-- What is sent: the channel, the payload and the headers.
abbrev pub Sent : Type 0
Sent = List (Value × Value × Object Value)

-- A bus that keeps what is sent.
abbrev pub keep : Send Sent
keep to payload headers w = (ok tt, w ++ (to, payload, headers) ∷ [])

-- The counter of a listener and what is sent, after its events.
unfoldable pub after_events :
    {H : Type 0} → Attachment H Sent → Listener H → List (List Value) → ℕ → Sent → ℕ × Sent
after_events attachment l [] n w = (n, w)
after_events attachment l (args ∷ more) n w =
    let (m, n') = run_listener attachment keep l n args in after_events attachment l more n' (m w).1

abbrev pub is_undefined : Value → Bool
is_undefined Value.undef = true
is_undefined _ = false

-- Payloads that are sent to a channel, numbered from a number on.
abbrev pub numbered : Value → ℕ → List Value → Sent
numbered to n [] = []
numbered to n (v ∷ vs) = (to, v, (text "sequenceNumber", Value.num n) ∷ []) ∷ numbered to (suc n) vs

-- The values that are not undefined, in order.
unfoldable pub defined_values : List Value → List Value
defined_values [] = []
defined_values (v ∷ vs) = let rest = defined_values vs in if is_undefined v then rest else v ∷ rest

inbound_adapter_lem :
    (to v : Value) (n : ℕ)
    → inbound_adapter keep to n v ≡ (
        if is_undefined v
        then (pure tt, n)
        else (keep to v ((text "sequenceNumber", Value.num n) ∷ []), suc n))
unfolding inbound_adapter increment
inbound_adapter_lem to Value.undef n = refl
inbound_adapter_lem to Value.null n = refl
inbound_adapter_lem to Value.nan n = refl
inbound_adapter_lem to Value.type_error n = refl
inbound_adapter_lem to (Value.bool _) n = refl
inbound_adapter_lem to (Value.num _) n = refl
inbound_adapter_lem to (Value.str _) n = refl
inbound_adapter_lem to (Value.error_object _) n = refl
inbound_adapter_lem to (Value.channel_ref _) n = refl
inbound_adapter_lem to (Value.handler_ref _) n = refl
inbound_adapter_lem to (Value.array _) n = refl
inbound_adapter_lem to (Value.message_object _ _) n = refl

module _ {H : Type 0} (attachment : Attachment H Sent) (to : Value) (f : List Value → Value)
    (read : List Value → Outcome Value)
    (reads : (args : List Value) → read args ≡ ok (f args)) where
  run_listener_lem :
      (args : List Value) (n : ℕ)
      → run_listener attachment keep (sending to read) n args ≡ (
          if is_undefined (f args)
          then (pure tt, n)
          else (keep to (f args) ((text "sequenceNumber", Value.num n) ∷ []), suc n))
  unfolding run_listener
  run_listener_lem args n = rw (run_listener, reads args) (inbound_adapter_lem to (f args) n)

  -- Whatever events reach the listener of an inbound adapter that reads each event's arguments as a
  -- value: those that are not undefined are sent to its channel, in order, numbered without a gap from
  -- the counter on; an event that is read as undefined sends nothing and takes no number.
  pub after_events-numbered :
      (events : List (List Value)) (n : ℕ) (w : Sent)
      → (after_events attachment (sending to read) events n w).1
        ≡ w ++ numbered to n (defined_values (map f events))
  unfolding after_events run_listener defined_values
  after_events-numbered [] n w = sym (append-nil w)
  after_events-numbered (args ∷ more) n w = elim (Bool-cases (is_undefined (f args))) [
    | inl u ↦
        rw (after_events, defined_values, run_listener_lem args n, u)
          (after_events-numbered more n w)
    | inr d ↦
        rw (after_events, defined_values, run_listener_lem args n, d)
          (after_events-numbered more (suc n)
              (w ++ (to, f args, (text "sequenceNumber", Value.num n) ∷ []) ∷ [])
            ∙ append_assoc w _ _)
  ]
