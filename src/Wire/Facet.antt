-- ===== src/Wire/Facet.antt =====
-- wire.js: the facet that subscribes a component's functions to channels. The promises are those of
-- `when`, and `delegate` and `pipeline` are wire's.
use msgs.Base.{List}
use msgs.Js.Text.{Str}
use msgs.Js.Value.{Value}
use msgs.Js.Object.{Object, get, keys}
use msgs.Js.Effect.{Js, or_type_error, ◌>>=◌}

-- What is used of the library `when`: `when.map`, and `then` with one function and with two.
pub record Promises (W : Type 0) : Type 1 where
  pub Promise : Type 0 → Type 0
  pub map_each : {A B : Type 0} → List A → (A → Js W (Promise B)) → Js W (Promise (List B))
  pub and_then : {A B : Type 0} → Promise A → (A → Js W B) → Js W (Promise B)
  pub settle :
      {A : Type 0} → Promise A → (A → Js W (Unit {0})) → (Value → Js W (Unit {0})) → Js W (Unit {0})

-- The resolver of the facet, wire's `delegate` and `pipeline`, and `bus.outboundAdapter(func, { input: channel })`.
module _ {W Target Func H : Type 0} (promises : Promises W) (delegate : Value → List Target) where
  open promises use {Promise, map_each, and_then, settle}

  module _ (pipeline : Target → Js W (Promise Func)) (outbound_adapter : Func → Str → Js W H) where
    -- A target of a channel.
    abbrev pub adapt : Str → Target → Js W (Promise H)
    adapt channel target = do
      func ← pipeline target
      and_then func (λ func. outbound_adapter func channel)

    -- `wireArray.delegate(config[channel])`, each one adapted
    abbrev pub adapt_channel : Object Value → Str → Js W (Promise (List H))
    adapt_channel config channel = do
      targets ← or_type_error (get config channel)
      map_each (delegate targets) (adapt channel)

    unfoldable pub outbound_adapter_facet :
        (List (List H) → Js W (Unit {0}))
        → (Value → Js W (Unit {0}))
        → Object Value
        → Js W (Unit {0})
    outbound_adapter_facet resolve reject config = do
      adapters ← map_each (keys config) (adapt_channel config)
      settle adapters resolve reject
