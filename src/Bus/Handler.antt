-- ===== src/Bus/Handler.antt =====
-- msgs.js, `_handler`: what `handle` does around a handler's transform.
use msgs.Js.Value
pub mod Errors
pub mod Preserves
pub mod Results
use msgs.Base.{[], if◌then◌else◌, ◌&&◌, ◌∷◌}
use msgs.Js.Text.{text}
use msgs.Js.Effect.{Js, catching, pure, throws, ◌>>=◌, ◌>>◌}
use msgs.Js.Value.{Value, to_fields, truthy}
use msgs.Js.Object.{Object}
use msgs.Bus.Channel.{send}
use msgs.Message.{Message, header}

-- A message as a value.
abbrev pub as_value : Message → Value
as_value m = Value.message_object m.payload (to_fields m.headers)

-- A channel is a name or an object, and a false value is no channel.
abbrev pub or_value : Value → Value → Value
or_value v w = if truthy v then v else w

-- The bus's `send(channel, payload, headers)`.
abbrev pub Send : Type 0 → Type 0
Send W = Value → Value → Object Value → Js W (Unit {0})

-- `transform.call(this, message, nextOutput, nextError)`
abbrev pub Transform : Type 0 → Type 0
Transform W = Message → Value → Value → Js W Value

module _ {W : Type 0} (send : Send W) where
  forward_result : Message → Value → Value → Js W (Unit {0})
  forward_result m next_output payload =
      if truthy payload && truthy next_output then send next_output payload m.headers else pure tt

  report_error : Message → Value → Value → Js W (Unit {0})
  report_error m next_error e =
      if truthy next_error then send next_error (as_value m) ((text "error", e) ∷ []) else throws e

  unfoldable pub handle : Transform W → Value → Value → Message → Value → Js W (Unit {0})
  unfolding forward_result report_error header
  handle transform output_channel error_channel m output_channel_override =
      let next_output =
        or_value output_channel_override
          (or_value output_channel (header m (text "replyChannel"))) in
      let next_error = or_value error_channel (header m (text "errorChannel")) in
      catching
        (do payload ← transform m next_output next_error; forward_result m next_output payload)
        (report_error m next_error)
