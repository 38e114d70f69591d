-- ===== src/Adapters/Backbone.antt =====
-- adapters/backbone.js, `inboundBackboneAdapter`, on a bus of a program.
use msgs.Adapters.{first_argument}
use msgs.Base.{List, [], ◌∷◌, ℕ}
use msgs.Bus.Handler.{Send, as_value, or_value}
use msgs.Bus.Kinds.{inbound_adapter}
use msgs.Js.Effect.{Js, Outcome, ok, out_of_fuel, pure, throw, ◌>>=◌}
use msgs.Js.Text.{text}
use msgs.Js.Value.{Value, to_values}
use msgs.System.{System, Run, make_message}

module _ {W : Type 0} (send : Send W) where
  -- What is left of the listener once the adapter has read its arguments.
  abbrev pub sent : Value → ℕ → Outcome Value → W → Outcome (Unit {0}) × ℕ × W
  sent output counter (ok v) w =
      let (m, next) = inbound_adapter send output counter v in let (r, w') = m w in (r, next, w')
  sent output counter (throw e) w = (throw e, counter, w)
  sent output counter out_of_fuel w = (out_of_fuel, counter, w)

  -- The function that `inboundAdapter` returns, for an adapter that reads and changes the state.
  unfoldable pub read_and_send :
      (List Value → Js W Value) → Value → List Value → ℕ → W → Outcome (Unit {0}) × ℕ × W
  read_and_send read output args counter w = let (r, w') = read args w in sent output counter r w'

-- `this._message(payload, { args: … })` of the bus `b`
unfoldable pub backbone_message : {W : Type 0} → ℕ → List Value → Run W Value
backbone_message b args = do
  m ← make_message b (first_argument args) ((text "args", Value.array (to_values args)) ∷ [])
  pure (as_value m)

-- `bbobj.on(events, listener)`
unfoldable pub inbound_backbone_adapter :
    {W : Type 0}
    → Send (System × W)
    → (Value
        → (List Value → ℕ → System × W → Outcome (Unit {0}) × ℕ × (System × W))
        → Run W (Unit {0}))
    → ℕ
    → Value
    → Value
    → Run W (Unit {0})
unfolding read_and_send backbone_message
inbound_backbone_adapter send on b output events =
    on (or_value events (Value.str (text "all"))) (read_and_send send (backbone_message b) output)
