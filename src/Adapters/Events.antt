-- ===== src/Adapters/Events.antt =====
-- adapters/backbone.js and adapters/dom.js.
use msgs.Adapters.{Attachment, Options, outbound, sending, first_argument, Listener}
use msgs.Base.{
  Bool, List, [], false, if◌then◌else◌, leb, nat_eq, true, ℕ, ◌&&◌, ◌++◌, ◌==◌, ◌||◌, ◌∷◌,
}
use msgs.Js.Value.{Value, of_values, to_string, truthy}
use msgs.Js.Effect.{Js, Outcome, for_each, lift, ok, pure, throws, ◌>>=◌, ◌>>◌}
use msgs.Js.Text.{Str, str_eq, text}

-- `\s`: the white space of the Basic Latin and Latin-1 blocks
is_space : ℕ → Bool
is_space c = (leb 9 c && leb c 13) || c == 32 || c == 160

-- Puts a unit in front of the first word.
onto_word : ℕ → List Str → List Str
onto_word c [] = (c ∷ []) ∷ []
onto_word c (w ∷ ws) = (c ∷ w) ∷ ws

-- `s.split(/\s+/)`; the flag says whether a run of white space has been cut off already
split_words : Bool → Str → List Str
unfolding is_space onto_word
split_words cut [] = [] ∷ []
split_words cut (c ∷ s) =
    let again = split_words true s in
    let rest = split_words false s in
    if is_space c then (if cut then again else [] ∷ again) else onto_word c rest

-- The arguments of one `trigger`: `[event].concat(payload)` or `[event, payload]`
unfoldable pub trigger_arguments : Bool → Str → Value → List Value
trigger_arguments true event (Value.array vs) = Value.str event ∷ of_values vs
trigger_arguments _ event payload = Value.str event ∷ payload ∷ []

events_error : Value
events_error = Value.error_object (text "'events' option is requried for outboundBackboneAdapter")

-- What a DOM node understands: `addEventListener`, else `attachEvent`, else neither.
pub data Node (H W : Type 0) : Type 0 where
  with_add_event_listener : (Str → Listener H → Bool → Js W (Unit {0})) → Node H W
  with_attach_event : (Str → Listener H → Js W (Unit {0})) → Node H W
  with_neither : Node H W

-- `opts.phase === 'capture'`
is_capture : Value → Bool
is_capture (Value.str s) = s == text "capture"
is_capture _ = false

module _ {H W : Type 0} (attachment : Attachment H W) where
  -- `trigger` is `bbobj.trigger`, on its arguments.
  unfoldable pub trigger_all : (List Value → Js W (Unit {0})) → Bool → List Str → Value → Js W Value
  unfolding trigger_arguments
  trigger_all trigger apply events payload = do
    for_each (λ event. trigger (trigger_arguments apply event payload)) events
    pure Value.undef

  unfoldable pub outbound_backbone_adapter :
      (List Value → Js W (Unit {0})) → Value → Value → Options → Js W H
  unfolding outbound trigger_all split_words events_error
  outbound_backbone_adapter trigger (Value.str (c ∷ s)) apply opts =
      outbound attachment (trigger_all trigger (truthy apply) (split_words false (c ∷ s)))
        opts.input
  outbound_backbone_adapter trigger events apply opts =
      if truthy events then throws Value.type_error else throws events_error

unfoldable pub inbound_dom_adapter :
    {H W : Type 0} → Node H W → Str → Value → Options → Js W (Unit {0})
unfolding is_capture
inbound_dom_adapter (with_add_event_listener add_event_listener) event phase opts =
    add_event_listener event (sending opts.output (λ args. ok (first_argument args)))
      (is_capture phase)
inbound_dom_adapter (with_attach_event attach_event) event phase opts =
    attach_event (text "on" ++ event) (sending opts.output (λ args. ok (first_argument args)))
inbound_dom_adapter with_neither event phase opts =
    throws (Value.error_object (text "A DOM node is expected"))

-- What a DOM node that events are fired on understands: `dispatchEvent`, else `fireEvent`.
pub data EventTarget (W : Type 0) : Type 0 where
  with_dispatch_event : (Value → Js W Value) → EventTarget W
  with_fire_event : (Str → Value → Js W Value) → EventTarget W

-- `'on' + (event.type || 'custom')`
unfoldable pub fired_name : Value → Str
fired_name type = text "on" ++ (if truthy type then to_string type else text "custom")

-- The bound function of an outbound adapter; `type_of` is `event.type`.
unfoldable pub fire_on : {W : Type 0} → (Value → Outcome Value) → EventTarget W → Value → Js W Value
unfolding fired_name
fire_on type_of (with_dispatch_event dispatch_event) event = dispatch_event event
fire_on type_of (with_fire_event fire_event) event = do
  type ← lift (type_of event)
  fire_event (fired_name type) event
  pure Value.undef

unfoldable pub outbound_dom_adapter :
    {H W : Type 0} → Attachment H W → (Value → Outcome Value) → EventTarget W → Options → Js W H
unfolding outbound fire_on
outbound_dom_adapter attachment type_of node opts =
    outbound attachment (fire_on type_of node) opts.input
