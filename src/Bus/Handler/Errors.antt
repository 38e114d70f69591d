-- ===== src/Bus/Handler/Errors.antt =====
-- msgs.js, `_handler`: where the errors of a handler go.
use msgs.Js.Quiet.{IsQuiet, catching-IsQuiet}
use msgs.Bus.Handler.{forward_result, Send, Transform, as_value, handle, or_value, report_error}
use msgs.Js.Effect.{◌>>=◌}
use msgs.Message.{Message, header}
use msgs.Js.Value.{Value, truthy}
use msgs.Js.Text.{text}
use msgs.Base.{[], ◌∷◌, ◌≡◌, true}

-- Where a result goes: the channel that a chain gives, else the handler's own, else the message's.
unfoldable pub next_output : Value → Value → Message → Value
next_output override output m = or_value override (or_value output (header m (text "replyChannel")))

-- Where an error goes: the handler's own channel, else the message's.
unfoldable pub next_error : Value → Message → Value
next_error error m = or_value error (header m (text "errorChannel"))

module _ {W : Type 0} (send : Send W) (transform : Transform W) (output error override : Value)
    (m : Message) where
  -- With an error channel to which sending does not throw, `handle` does not throw, whatever the
  -- transform and the sends to the output channel do.
  pub handle-IsQuiet :
      truthy (next_error error m) ≡ true
      → ((e : Value) → IsQuiet (send (next_error error m) (as_value m) ((text "error", e) ∷ [])))
      → IsQuiet (handle send transform output error m override)
  unfolding handle next_output next_error report_error header
  handle-IsQuiet t q =
      catching-IsQuiet
        (do
          payload ← transform m (next_output override output m) (next_error error m)
          forward_result send m (next_output override output m) payload)
        (report_error send m (next_error error m)) (λ v w e. rw t (q v w e))
