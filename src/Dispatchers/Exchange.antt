-- ===== src/Dispatchers/Exchange.antt =====
-- channels/dispatchers/exchange.js: a dispatcher for each subscribed topic. The dispatchers of the
-- topics are an interface, which broadcast.js and unicast.js fill.
pub mod Topics
pub mod Literal
pub mod Idle
pub mod Preserves
pub mod Destruction
pub mod Topical
use msgs.Js.Value
use msgs.Dispatchers.Subscribable
use msgs.Js.Object.{Object, delete, get, has, keys, put}
use msgs.Base.{
  Bool, Eq, List, Option, [], false, if◌then◌else◌, nat_eq, none, some, true, ◌++◌, ◌==◌, ◌∷◌,
}
use msgs.Dispatchers.Subscribable.{Handlers, subscribable_dispatcher}
use msgs.Js.Effect.{
  Js, Outcome, catching, for_each, get_state, ok, or_type_error, out_of_fuel, pure, set_state,
  throw, throws, ◌>>=◌, ◌>>◌,
}
use msgs.Js.Value.{Value, to_values}
use msgs.Js.Text.{Str, str_eq}

-- What `topicDispatcher()` returns: its new state, and its methods on that state.
pub record TopicDispatcher (D H : Type 0) : Type 0 where
  pub create : D
  pub subscribe : H → Js D (Unit {0})
  pub unsubscribe : H → Js D (Unit {0})
  pub subscribed : Js D Bool
  pub destroy : Js D (Unit {0})

-- `topics`: undefined once the exchange is destroyed
abbrev pub Topics : Type 0 → Type 0
Topics D = Option (Object D)

module _ {D : Type 0} where
  -- `topics[topic].method(…)`, a method that changes the topic's dispatcher in place
  on_topic {κ} : {A : Type κ} → Str → Js D A → Js (Topics D) A
  on_topic topic m none = (throw Value.type_error, none)
  on_topic topic m (some ts) = elim (get ts topic) [
    | none ↦ (throw Value.type_error, some ts)
    | some d ↦ let (r, d') = m d in (r, some (put ts topic d'))
  ]

  -- `topics.hasOwnProperty(topic)`
  has_topic : Str → Js (Topics D) Bool
  has_topic topic none = (throw Value.type_error, none)
  has_topic topic (some ts) = (ok (has ts topic), some ts)

  -- `topics[topic] = d`
  set_topic : Str → D → Js (Topics D) (Unit {0})
  set_topic topic d none = (throw Value.type_error, none)
  set_topic topic d (some ts) = (ok tt, some (put ts topic d))

  delete_topic : Str → Js (Topics D) (Unit {0})
  delete_topic topic none = (throw Value.type_error, none)
  delete_topic topic (some ts) = (ok tt, some (delete ts topic))

module _ {D H : Type 0} (dispatcher : TopicDispatcher D H) where
  create_topic_unless : Str → Bool → Js (Topics D) (Unit {0})
  create_topic_unless topic true = pure tt
  create_topic_unless topic false = set_topic topic dispatcher.create

  unfoldable pub subscribe : Str → H → Js (Topics D) (Unit {0})
  unfolding on_topic has_topic set_topic create_topic_unless
  subscribe topic h = do
    known ← has_topic topic
    create_topic_unless topic known
    on_topic topic (dispatcher.subscribe h)

  drop_if_empty : Str → Bool → Js (Topics D) (Unit {0})
  drop_if_empty topic true = pure tt
  drop_if_empty topic false = do on_topic topic dispatcher.destroy; delete_topic topic

  unsubscribe_known : Str → H → Bool → Js (Topics D) (Unit {0})
  unsubscribe_known topic h false = pure tt
  unsubscribe_known topic h true = do
    on_topic topic (dispatcher.unsubscribe h)
    left ← on_topic topic dispatcher.subscribed
    drop_if_empty topic left

  unfoldable pub unsubscribe : Str → H → Js (Topics D) (Unit {0})
  unfolding unsubscribe_known drop_if_empty on_topic has_topic delete_topic
  unsubscribe topic h = do known ← has_topic topic; unsubscribe_known topic h known

  destroy_each : List Str → Js (Topics D) (Unit {0})
  unfolding for_each
  destroy_each = for_each (λ topic. on_topic topic dispatcher.destroy)

  -- `for (var topic in topics) …; topics = undef`
  unfoldable pub destroy : Js (Topics D) (Unit {0})
  unfolding destroy_each on_topic
  destroy none = (ok tt, none)
  destroy (some ts) = (do destroy_each (keys ts); set_state none) (some ts)

-- `topics` is read from the state at each step, since a handler may subscribe and unsubscribe.
module _ {W D : Type 0} (topics : W → Topics D) (topic_matcher : Str → Value → Js W Bool)
    (send : D → Js W Bool) where
  -- `Object.keys(topics).filter(…)`
  matching : Value → List Str → Js W (List Str)
  matching topic [] = pure []
  matching topic (t ∷ ts) = do
    hit ← topic_matcher t topic
    rest ← matching topic ts
    pure (if hit then t ∷ rest else rest)

  topic_keys : Topics D → Js W (List Str)
  topic_keys none = throws Value.type_error
  topic_keys (some ts) = pure (keys ts)

  topic_at : Topics D → Str → Js W D
  topic_at none t = throws Value.type_error
  topic_at (some ts) t = or_type_error (get ts t)

  -- `topics[dispatcher].dispatch(message, handlerResolver)`
  send_topic : Str → Js W Bool
  unfolding topic_at
  send_topic t = do w ← get_state; d ← topic_at (topics w) t; send d

  visit : List Value → List Str → Js W (List Value)
  unfolding send_topic
  visit errors [] = pure errors
  visit errors (t ∷ ts) = do
    errors' ← catching (send_topic t >>= λ _. pure errors) (λ e. pure (errors ++ e ∷ []))
    visit errors' ts

  report : List Value → Js W Bool
  report [] = pure true
  report (e ∷ es) = throws (Value.array (to_values (e ∷ es)))

  send_to_topics : List Str → Js W Bool
  unfolding report
  send_to_topics [] = pure false
  send_to_topics (t ∷ ts) = do errors ← visit [] (t ∷ ts); report errors

  -- `dispatcher.dispatch`, of a message with this `topic` header
  unfoldable pub dispatch : Value → Js W Bool
  unfolding send_to_topics topic_keys matching visit
  dispatch topic = do
    w ← get_state
    ts ← topic_keys (topics w)
    hits ← matching topic ts
    send_to_topics hits

-- `exchangeDispatcher.matchers.literal`
unfoldable pub literal_matcher : Str → Value → Bool
literal_matcher subscription (Value.str topic) = subscription == topic
literal_matcher subscription _ = false

-- A step that returns the new state of its dispatcher.
abbrev in_place {ℓ} : {D : Type ℓ} → (D → Outcome D) → Js D (Unit {0})
in_place f d = elim (f d) [
  | ok d' ↦ (ok tt, d')
  | throw e ↦ (throw e, d)
  | out_of_fuel ↦ (out_of_fuel, d)
]

-- The topics' dispatchers of broadcast.js and unicast.js, which are subscribable.
unfoldable pub subscribable_topics : {H : Type 0} ⦃e : Eq H⦄ → TopicDispatcher (Handlers H) H
unfolding Subscribable.subscribe Subscribable.unsubscribe Subscribable.subscribed
    Subscribable.destroy
subscribable_topics = record {
  create = subscribable_dispatcher;
  subscribe = λ h. in_place (λ hs. Subscribable.subscribe hs h);
  unsubscribe = λ h. in_place (λ hs. Subscribable.unsubscribe hs h);
  subscribed = λ hs. (Subscribable.subscribed hs, hs);
  destroy = λ hs. (ok tt, Subscribable.destroy hs);
}
