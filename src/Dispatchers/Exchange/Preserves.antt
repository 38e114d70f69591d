-- ===== src/Dispatchers/Exchange/Preserves.antt =====
-- channels/dispatchers/exchange.js: a property that the matcher and the dispatchers of the topics keep.
use msgs.Base.{List, [], ◌∷◌, ◌++◌, Bool, Option, none, some, if◌then◌else◌}
use msgs.Js.Text.{Str}
use msgs.Js.Value.{Value}
use msgs.Js.Effect.{Js, catching, or_type_error, pure, ◌>>=◌}
use msgs.Js.Preserves.{Preserves, bind-Preserves, catching-Preserves}
use msgs.Js.Object.{get}
use msgs.Dispatchers.Exchange.{
  Topics, dispatch, matching, topic_at, topic_keys, send_topic, visit, report, send_to_topics,
}

module _ {μ} {W D : Type 0} (P : W → Type μ) (topics : W → Topics D)
    (topic_matcher : Str → Value → Js W Bool) (send : D → Js W Bool)
    (match_keeps : (t : Str) (v : Value) → Preserves P (topic_matcher t v))
    (send_keeps : (d : D) → Preserves P (send d)) where
  topic_at-Preserves :
      (ts : Topics D) (t : Str) → Preserves P (topic_at topics topic_matcher send ts t)
  unfolding topic_at
  topic_at-Preserves none t w p = p
  topic_at-Preserves (some ts) t w p = at_entry (get ts t)
    where
      at_entry : (d : Option D) → P (or_type_error d w).1
      at_entry none = p
      at_entry (some d) = p

  send_topic-Preserves : (t : Str) → Preserves P (send_topic topics topic_matcher send t)
  unfolding send_topic
  send_topic-Preserves t w p =
      bind-Preserves P (topic_at topics topic_matcher send (topics w) t) send
        (topic_at-Preserves (topics w) t) send_keeps w p

  visit-Preserves :
      (errors : List Value) (ts : List Str)
      → Preserves P (visit topics topic_matcher send errors ts)
  unfolding visit
  visit-Preserves errors [] = λ w p. p
  visit-Preserves errors (t ∷ ts) =
      bind-Preserves P
        (catching (send_topic topics topic_matcher send t >>= λ _. pure errors)
          (λ e. pure (errors ++ e ∷ [])))
        (λ errors'. visit topics topic_matcher send errors' ts)
        (catching-Preserves P (send_topic topics topic_matcher send t >>= λ _. pure errors)
          (λ e. pure (errors ++ e ∷ []))
          (bind-Preserves P (send_topic topics topic_matcher send t) (λ _. pure errors)
            (send_topic-Preserves t) (λ _ w p. p))
          (λ e w p. p))
        (λ errors'. visit-Preserves errors' ts)

  report-Preserves : (errors : List Value) → Preserves P (report topics topic_matcher send errors)
  unfolding report
  report-Preserves [] w p = p
  report-Preserves (e ∷ es) w p = p

  send_to_topics-Preserves :
      (ts : List Str) → Preserves P (send_to_topics topics topic_matcher send ts)
  unfolding send_to_topics
  send_to_topics-Preserves [] = λ w p. p
  send_to_topics-Preserves (t ∷ ts) =
      bind-Preserves P (visit topics topic_matcher send [] (t ∷ ts))
        (report topics topic_matcher send) (visit-Preserves [] (t ∷ ts)) report-Preserves

  matching-Preserves :
      (topic : Value) (ts : List Str) → Preserves P (matching topics topic_matcher send topic ts)
  unfolding matching
  matching-Preserves topic [] = λ w p. p
  matching-Preserves topic (t ∷ ts) =
      bind-Preserves P (topic_matcher t topic)
        (λ hit. (do
          rest ← matching topics topic_matcher send topic ts
          pure (if hit then t ∷ rest else rest)))
        (match_keeps t topic)
        (λ hit.
          bind-Preserves P (matching topics topic_matcher send topic ts)
            (λ rest. pure (if hit then t ∷ rest else rest)) (matching-Preserves topic ts)
            (λ rest w p. p))

  topic_keys-Preserves : (ts : Topics D) → Preserves P (topic_keys topics topic_matcher send ts)
  unfolding topic_keys
  topic_keys-Preserves none w p = p
  topic_keys-Preserves (some ts) w p = p

  pub dispatch-Preserves : (topic : Value) → Preserves P (dispatch topics topic_matcher send topic)
  unfolding dispatch
  dispatch-Preserves topic w =
      bind-Preserves P (topic_keys topics topic_matcher send (topics w))
        (λ ts.
          matching topics topic_matcher send topic ts >>= send_to_topics topics topic_matcher send)
        (topic_keys-Preserves (topics w))
        (λ ts.
          bind-Preserves P (matching topics topic_matcher send topic ts)
            (send_to_topics topics topic_matcher send) (matching-Preserves topic ts)
            send_to_topics-Preserves)
        w
