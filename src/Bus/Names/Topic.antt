-- ===== src/Bus/Names/Topic.antt =====
-- msgs.js, `topicizeChannel`: a message that is sent to `name!topic`.

use msgs.Js.Value.{Value}
use msgs.Js.Object.{get, has, assign}
use msgs.Js.Object.Laws.{Distinct}
use msgs.Js.Text.{Str, text, str_eq}
use msgs.Base.{◌≡◌, refl, [], ◌∷◌, none, some, arith, nat_eq, ◌∙◌, Option, ℕ, ◌==◌, if◌then◌else◌}
use msgs.Message.{Message, mixin_headers}
use msgs.Message.Headers.{get-mixin_headers, assign-Distinct}
use msgs.Bus.Names.{Channel, created, topicized, send_through}

-- The channel that was topicized, and the topic that it was given first, if any.
abbrev pub innermost : Channel → ℕ × Option Str
innermost (created n) = (n, none)
innermost (topicized topic (created n)) = (n, some topic)
innermost (topicized topic (topicized topic' ch)) = innermost (topicized topic' ch)

abbrev pub topic_header : Option Str → Option Value → Option Value
topic_header none v = v
topic_header (some topic) v = some (Value.str topic)

-- The message with one topic.
abbrev with_one : Message → Str → Message
with_one m topic = mixin_headers m ((text "topic", Value.str topic) ∷ [])

with_one-Distinct : (m : Message) (topic : Str) → Distinct (with_one m topic).headers
unfolding mixin_headers
with_one-Distinct m topic =
    assign-Distinct (assign [] m.headers) ((text "topic", Value.str topic) ∷ [])
      (assign-Distinct [] m.headers tt)

get-with_one :
    (m : Message) (topic j : Str)
    → Distinct m.headers
    → get (with_one m topic).headers j
      ≡ (if text "topic" == j then some (Value.str topic) else get m.headers j)
unfolding get has
get-with_one m topic j d = ground (
  arith,
  get-mixin_headers m ((text "topic", Value.str topic) ∷ []) j d (unfold has in (refl, tt)),
)

innermost_topic :
    (topic : Str) (ch : Channel) → (t : Str) × ((innermost (topicized topic ch)).1 ≡ some t)
innermost_topic topic (created n) = (topic, refl)
innermost_topic topic (topicized topic' ch) = innermost_topic topic' ch

same_header :
    (m : Message) (topic topic' j : Str) (ch : Channel)
    → Distinct m.headers
    → (if text "topic" == j
        then topic_header (innermost (topicized topic' ch)).1 (get (with_one m topic).headers j)
        else get (with_one m topic).headers j)
      ≡ (if text "topic" == j
          then topic_header (innermost (topicized topic' ch)).1 (get m.headers j)
          else get m.headers j)
same_header m topic topic' j ch d =
    let (t, p) = innermost_topic topic' ch in rw (p, get-with_one m topic j d) (ground arith)

-- What arrives.
abbrev pub Arrives : Channel → Message → ℕ × Message → Type 0
Arrives ch m (n, m') =
    (n ≡ (innermost ch).0)
    × (m'.payload ≡ m.payload)
    × ((j : Str)
        → get m'.headers j ≡ (
            if text "topic" == j
            then topic_header (innermost ch).1 (get m.headers j)
            else get m.headers j))

-- A message with distinct header names that is sent to a topicized channel arrives at the channel
-- that was topicized, with its payload and all its headers but `topic`; that is the topic that was
-- given first, also where the channel was topicized again.
pub send_through-Arrives :
    (ch : Channel) (m : Message) → Distinct m.headers → Arrives ch m (send_through ch m)
unfolding send_through mixin_headers
send_through-Arrives (created n) m d = (refl, refl, λ j. ground arith)
send_through-Arrives (topicized topic (created n)) m d = (refl, refl, λ j. get-with_one m topic j d)
send_through-Arrives (topicized topic (topicized topic' ch)) m d =
    let (same, payload, headers) =
      send_through-Arrives (topicized topic' ch) (with_one m topic) (with_one-Distinct m topic) in
    (same, payload, λ j. headers j ∙ same_header m topic topic' j ch d)
