-- ===== src/Dispatchers/Exchange/Idle.antt =====
-- channels/dispatchers/exchange.js without topics.
use msgs.Base.{Bool, [], ◌≡◌, false, refl, some}
use msgs.Dispatchers.Exchange.{Topics, dispatch}
use msgs.Js.Effect.{Js, ok}
use msgs.Js.Text.{Str}
use msgs.Js.Value.{Value}

-- An exchange without topics handles no message.
pub dispatch-idle :
    {W D : Type 0} (topics : W → Topics D) (topic_matcher : Str → Value → Js W Bool)
    (send : D → Js W Bool) (topic : Value) (w : W)
    → topics w ≡ some []
    → dispatch topics topic_matcher send topic w ≡ (ok false, w)
unfolding dispatch
dispatch-idle topics topic_matcher send topic w p = rw p refl
