-- ===== src/Bus/Kinds.antt =====
-- msgs.js: the transforms of the handler kinds. A function of the user is code that may change the
-- state of the program and may throw.
use msgs.Bus.Channel.{send}
pub mod Splitting
pub mod Splitter
use msgs.Js.Text.{text}
use msgs.Base.{Bool, List, Option, [], false, if◌then◌else◌, length, none, some, suc, true, ℕ, ◌∷◌}
use msgs.Js.Effect.{Js, for_each, pure, throws, ◌>>=◌, ◌>>◌}
use msgs.Bus.Handler.{Send, Transform, as_value}
use msgs.Message.{Message, header, increment, mixin_message}
use msgs.Js.Object.{Object, get}
use msgs.Js.Value.{Value, of_values, to_string, truthy}
use msgs.Bus.Handler.Errors.{next_error, next_output}

abbrev pub UserFunction : Type 0 → Type 0
UserFunction W = Value → Object Value → Js W Value

-- `recipients instanceof Array ? recipients : [recipients]`
as_list : Value → List Value
as_list (Value.array vs) = of_values vs
as_list v = v ∷ []

-- `recipient in opts.routes ? opts.routes[recipient] : recipient`
routed : Object Value → Value → Value
routed routes recipient = elim (get routes (to_string recipient)) [
  | none ↦ recipient
  | some channel ↦ channel
]

unfoldable pub split_headers : Message → ℕ → ℕ → Object Value
split_headers m size index =
    (text "sequenceNumber", Value.num index)
    ∷ (text "sequenceSize", Value.num size)
    ∷ (text "correlationId", header m (text "id"))
    ∷ []

module _ {W : Type 0} (send : Send W) where
  -- `forward`: `noop` returns its first argument
  unfoldable pub forward : Transform W
  forward m next_output next_error = pure (as_value m)

  -- `on`
  unfoldable pub on : UserFunction W → Transform W
  on listener m next_output next_error = do listener m.payload m.headers; pure Value.undef

  -- `transformer`
  unfoldable pub transformer : UserFunction W → Transform W
  transformer transform m next_output next_error = do
    payload ← transform m.payload m.headers
    pure (as_value (mixin_message m payload []))

  discard : Value → Value → Message → Bool → Js W Value
  discard name channel m true = pure (as_value m)
  discard name channel m false =
      if truthy channel
      then (do send channel (as_value m) ((text "discardedBy", name) ∷ []); pure Value.undef)
      else pure Value.undef

  -- `filter`
  unfoldable pub filter : Value → UserFunction W → Value → Transform W
  unfolding discard
  filter name rule discard_channel m next_output next_error = do
    verdict ← rule m.payload m.headers
    discard name discard_channel m (truthy verdict)

  -- `outboundAdapter`
  unfoldable pub outbound_adapter : (Value → Js W Value) → Transform W
  outbound_adapter func m next_output next_error = do func m.payload; pure Value.undef

  -- `logger`; what it logs are the arguments of the console's method
  unfoldable pub logger : (List Value → Js W (Unit {0})) → Option Value → Transform W
  logger log none m next_output next_error = do log (as_value m ∷ []); pure Value.undef
  logger log (some prefix) m next_output next_error = do
    log (prefix ∷ as_value m ∷ [])
    pure Value.undef

  -- `router`
  unfoldable pub router : (Message → Js W Value) → Object Value → Transform W
  unfolding as_list routed
  router rule routes m next_output next_error = do
    recipients ← rule m
    for_each (λ r. send (routed routes r) (as_value m) []) (as_list recipients)
    pure Value.undef

  pub send_parts : Value → Message → ℕ → ℕ → List Value → Js W (Unit {0})
  unfolding split_headers
  send_parts output m size index [] = pure tt
  send_parts output m size index (piece ∷ pieces) = do
    send output piece (split_headers m size index)
    send_parts output m size (suc index) pieces

  -- `splitter`; a rule that returns no array throws
  split_with : Value → Message → Value → Js W Value
  unfolding send_parts
  split_with output m (Value.array vs) = do
    send_parts output m (length (of_values vs)) 0 (of_values vs)
    pure Value.undef
  split_with output m v = throws Value.type_error

  unfoldable pub splitter : (Message → Js W Value) → Value → Transform W
  unfolding split_with
  splitter rule output m next_output next_error = do parts ← rule m; split_with output m parts

  -- `release` of `aggregator`
  unfoldable pub release : Value → Value → Object Value → Js W (Unit {0})
  release output payload headers = send output payload headers

  -- `aggregator`, for a correlator of the message and the callback
  unfoldable pub aggregator :
      (Message → (Value → Object Value → Js W (Unit {0})) → Js W (Unit {0})) → Value → Transform W
  unfolding release
  aggregator correlator output m next_output next_error = do
    correlator m (release output)
    pure Value.undef

  -- The function that `inboundAdapter` returns, on its counter and what the adapter has made of the
  -- arguments: what it does, and the counter afterwards.
  unfoldable pub inbound_adapter : Value → ℕ → Value → Js W (Unit {0}) × ℕ
  unfolding increment
  inbound_adapter output counter Value.undef = (pure tt, counter)
  inbound_adapter output counter payload =
      let (n, next) = increment counter in
      (send output payload ((text "sequenceNumber", Value.num n) ∷ []), next)
