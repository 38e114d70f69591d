-- ===== src/Bus/Handler/Results.antt =====
-- msgs.js, `_handler`: where the result of a handler goes.
use msgs.Bus.Handler.{forward_result, report_error, handle, Transform, Send, as_value}
use msgs.Bus.Handler.Errors.{next_output, next_error}
use msgs.Base.{[], false, refl, true, ◌∷◌, ◌≡◌}
use msgs.Js.Value.{Value, truthy}
use msgs.Js.Effect.{ok, throw}
use msgs.Message.{Message, header}
use msgs.Js.Text.{text}

module _ {W : Type 0} (send : Send W) (transform : Transform W) (output error override : Value)
    (m : Message) (w w' : W) where
  pub handle-nothing :
      (v : Value)
      → transform m (next_output override output m) (next_error error m) w ≡ (ok v, w')
      → truthy v ≡ false
      → handle send transform output error m override w ≡ (ok tt, w')
  unfolding handle next_output next_error forward_result header
  handle-nothing v p f = rw (p, f) refl

  pub handle-result :
      (v : Value) (w'' : W)
      → transform m (next_output override output m) (next_error error m) w ≡ (ok v, w')
      → truthy v ≡ true
      → truthy (next_output override output m) ≡ true
      → send (next_output override output m) v m.headers w' ≡ (ok tt, w'')
      → handle send transform output error m override w ≡ (ok tt, w'')
  unfolding handle next_output next_error forward_result header
  handle-result v w'' p t o s = rw (p, t, o, s) refl

  pub handle-error :
      (e : Value)
      → transform m (next_output override output m) (next_error error m) w ≡ (throw e, w')
      → truthy (next_error error m) ≡ true
      → handle send transform output error m override w
        ≡ send (next_error error m) (as_value m) ((text "error", e) ∷ []) w'
  unfolding handle next_output next_error report_error header
  handle-error e p t = rw (p, t) refl
