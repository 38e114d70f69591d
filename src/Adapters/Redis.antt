-- ===== src/Adapters/Redis.antt =====
-- adapters/redis.js: a client that publishes, and one that subscribes to a topic of the Redis server.
use msgs.Adapters.{Attachment, Options, outbound, sending, when_given, first_argument}
use msgs.Js.Effect.{Js, Outcome, ok, pure, ◌>>=◌, ◌>>◌}
use msgs.Base.{List, [], if◌then◌else◌, nat_eq, ◌==◌, ◌∷◌}
use msgs.Stomp.Dispatcher.Calls.{client}
use msgs.Js.Text.{Str, str_eq, text}
use msgs.Js.Value.{Value}

-- The second argument.
second_argument : List Value → Value
second_argument [] = Value.undef
second_argument (v ∷ vs) = first_argument vs

-- `if (channel === topic) { return message; }`
unfoldable pub on_topic : Str → List Value → Outcome Value
unfolding second_argument
on_topic topic args = elim (first_argument args) [
  | Value.str c ↦ ok (if c == topic then second_argument args else Value.undef)
  | _ ↦ ok Value.undef
]

-- `client_subscribe` is `client.subscribe`, `publish` is `client.publish`, and `new_client` is what
-- `clientFactory` does; each attachment is of one client.
module _ {H W : Type 0} (attachment : Attachment H W) where
  open attachment use {listen}

  unfoldable pub inbound_redis_adapter : (Str → Js W (Unit {0})) → Str → Options → Js W (Unit {0})
  unfolding on_topic
  inbound_redis_adapter client_subscribe topic opts = do
    listen (text "message") (sending opts.output (on_topic topic))
    client_subscribe topic

  unfoldable pub outbound_redis_adapter : (Str → Value → Js W Value) → Str → Options → Js W H
  unfolding outbound
  outbound_redis_adapter publish topic opts = do
    h ← outbound attachment (λ payload. publish topic payload >> pure Value.undef) opts.input
    when_given opts.error
        (listen (text "error") (sending opts.error (λ args. ok (first_argument args))))
    pure h

-- What a client is to the gateway.
pub record Client (H W : Type 0) : Type 0 where
  pub attachment : Attachment H W
  pub client_subscribe : Str → Js W (Unit {0})
  pub publish : Str → Value → Js W Value

unfoldable pub redis_gateway : {H W : Type 0} → Js W (Client H W) → Str → Options → Js W (Unit {0})
unfolding inbound_redis_adapter outbound_redis_adapter
redis_gateway client_factory topic opts = do
  when_given opts.output (do
    client ← client_factory
    inbound_redis_adapter client.attachment client.client_subscribe topic opts)
  when_given opts.input (do
    client ← client_factory
    outbound_redis_adapter client.attachment client.publish topic opts
    pure tt)
