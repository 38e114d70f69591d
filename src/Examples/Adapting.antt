-- ===== src/Examples/Adapting.antt =====
-- A web socket and a stream that are closed, and the events of a Redis client.
use msgs.Adapters.{Attachment, Options, sending, first_argument, run_listener}
use msgs.Bus.Kinds.{inbound_adapter}
use msgs.Message.{increment}
use msgs.Adapters.Redis.{on_topic}
use msgs.Adapters.Closing.{Watched, watched, TakesItsHandler, open_socket, gateway-TakesItsHandler}
use msgs.Adapters.Numbers.{Sent, after_events, numbered, defined_values, after_events-numbered}
use msgs.Adapters.Sockets.{web_socket_gateway, stream_gateway}
use msgs.Js.Effect.{Js, ok, pure}
use msgs.Base.{[], refl, ◌∷◌, ℕ, ◌≡◌}
use msgs.Js.Value.{Value, truthy}
use msgs.Dispatchers.Subscribable.Histories.{contains}
use msgs.Js.Text.{text}

abbrev both_ways : Options
both_ways = record {
  input = Value.str (text "in");
  output = Value.str (text "out");
  error = Value.undef;
}

abbrev sink : Value → Js Watched Value
sink v = pure Value.undef

gateway-TakesItsHandler_example :
    TakesItsHandler
      (3 ∷ 4 ∷ [])
      7
      both_ways.input
      (web_socket_gateway watched (λ v. ok v) sink both_ways (open_socket (3 ∷ 4 ∷ []) 7)).1
    × TakesItsHandler
        (3 ∷ 4 ∷ [])
        7
        both_ways.input
        (stream_gateway watched (λ v. ok v) sink both_ways (open_socket (3 ∷ 4 ∷ []) 7)).1
unfolding contains truthy
gateway-TakesItsHandler_example =
    gateway-TakesItsHandler (3 ∷ 4 ∷ []) 7 (refl, (refl, tt)) refl (λ v. ok v) sink sink both_ways
      refl

-- The listener is never asked to leave, so it does not matter what it would do.
abbrev keeping : Attachment ℕ Sent
keeping = record {
  new_handler = λ func. pure 0;
  subscribe = λ input h. pure tt;
  unsubscribe = λ input h. pure tt;
  listen = λ event l. pure tt;
}

-- Three events of a stream, of which one has no data.
after_events-numbered_example :
    (after_events keeping
      (sending (Value.str (text "out")) (λ args. ok (first_argument args)))
      ((Value.num 5 ∷ []) ∷ (Value.undef ∷ []) ∷ (Value.num 6 ∷ []) ∷ [])
      0
      []).1
    ≡ numbered (Value.str (text "out")) 0 (Value.num 5 ∷ Value.num 6 ∷ [])
unfolding defined_values
after_events-numbered_example =
    after_events-numbered keeping (Value.str (text "out")) first_argument
      (λ args. ok (first_argument args)) (λ args. refl)
      ((Value.num 5 ∷ []) ∷ (Value.undef ∷ []) ∷ (Value.num 6 ∷ []) ∷ []) 0 []

-- A message of another channel of the Redis server is not sent, and takes no number.
other_channel_is_skipped :
    (after_events keeping
      (sending (Value.str (text "out")) (on_topic (text "news")))
      ((Value.str (text "news") ∷ Value.num 1 ∷ [])
        ∷ (Value.str (text "chat") ∷ Value.num 2 ∷ [])
        ∷ (Value.str (text "news") ∷ Value.num 3 ∷ [])
        ∷ [])
      0
      []).1
    ≡ numbered (Value.str (text "out")) 0 (Value.num 1 ∷ Value.num 3 ∷ [])
unfolding after_events run_listener on_topic inbound_adapter increment
other_channel_is_skipped = refl
