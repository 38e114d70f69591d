-- ===== src/Bus/Handler/Preserves.antt =====
-- msgs.js, `_handler`: a property that the bus and the transform keep.
use msgs.Base.{Bool-cases, inl, inr, ◌&&◌}
use msgs.Js.Value.{Value, truthy}
use msgs.Js.Object.{Object}
use msgs.Js.Preserves.{Preserves, bind-Preserves, catching-Preserves}
use msgs.Message.{Message}
use msgs.Bus.Handler.{Send, Transform, handle, forward_result, report_error}

module _ {μ} {W : Type 0} (P : W → Type μ) (send : Send W)
    (keeps : (to payload : Value) (headers : Object Value)
      → Preserves P (send to payload headers)) where
  forward_result-Preserves :
      (m : Message) (next_output payload : Value)
      → Preserves P (forward_result send m next_output payload)
  unfolding forward_result
  forward_result-Preserves m next_output payload =
      elim (Bool-cases (truthy payload && truthy next_output)) [
        | inl t ↦ rw t (keeps next_output payload m.headers)
        | inr f ↦ rw f (λ w p. p)
      ]

  report_error-Preserves :
      (m : Message) (next_error e : Value) → Preserves P (report_error send m next_error e)
  unfolding report_error
  report_error-Preserves m next_error e = elim (Bool-cases (truthy next_error)) [
    | inl t ↦ rw t (keeps next_error _ _)
    | inr f ↦ rw f (λ w p. p)
  ]

  pub handle-Preserves :
      (transform : Transform W)
      → ((m : Message) (o e : Value) → Preserves P (transform m o e))
      → (output error : Value) (m : Message) (override : Value)
      → Preserves P (handle send transform output error m override)
  unfolding handle
  handle-Preserves transform h output error m override =
      catching-Preserves P _ _
        (bind-Preserves P (transform m _ _) (forward_result send m _) (h m _ _)
          (forward_result-Preserves m _))
        (report_error-Preserves m _)
