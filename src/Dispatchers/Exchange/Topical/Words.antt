-- ===== src/Dispatchers/Exchange/Topical/Words.antt =====
-- What the topical matcher is to decide: subscriptions and topics as words.
use msgs.Base.{ℕ, Bool, true, false, List, [], ◌∷◌, ◌++◌, ◌==◌, ◌&&◌, ◌||◌, ◌≡◌, nat_eq, All}
use msgs.Js.Text.{Str, str_eq, text}
use msgs.Js.RegExp.{is_syntax, is_line_terminator}

-- A segment is one word of a topic: one to be met literally, or any.
pub data Segment : Type 0 where
  literal : Str → Segment
  star : Segment

-- What a subscription is once it begins with a segment: `w`, `w.#`, `w.body`, or `w.#.body`.
pub data Body : Type 0 where
  end end_hash : Segment → Body
  next next_hash : Segment → Body → Body

-- A subscription in which no `#` follows another: none, `#`, `body`, or `#.body`.
pub data Subscription : Type 0 where
  nothing only_hash : Subscription
  body hash_body : Body → Subscription

-- A word of a binding: a segment, or any number of words.
pub data Word : Type 0 where
  segment : Segment → Word
  hash : Word

abbrev pub body_words : Body → List Word
body_words (end w) = segment w ∷ []
body_words (end_hash w) = segment w ∷ hash ∷ []
body_words (next w b) = segment w ∷ body_words b
body_words (next_hash w b) = segment w ∷ hash ∷ body_words b

abbrev pub words : Subscription → List Word
words nothing = []
words only_hash = hash ∷ []
words (body b) = body_words b
words (hash_body b) = hash ∷ body_words b

-- A body as text, for the spelling of a segment and of what may stand behind one.
abbrev pub body_text : (Segment → Str) → Str → Str → Str → Body → Str
body_text f at_hash dot inner_hash (end w) = f w
body_text f at_hash dot inner_hash (end_hash w) = f w ++ at_hash
body_text f at_hash dot inner_hash (next w b) = f w ++ (dot ++ body_text f at_hash dot inner_hash b)
body_text f at_hash dot inner_hash (next_hash w b) =
    f w ++ (inner_hash ++ body_text f at_hash dot inner_hash b)

abbrev pub spelled : Segment → Str
spelled (literal s) = s
spelled star = text "*"

abbrev pub subscription_text : Subscription → Str
subscription_text nothing = []
subscription_text only_hash = text "#"
subscription_text (body b) = body_text spelled (text ".#") (text ".") (text ".#.") b
subscription_text (hash_body b) =
    text "#." ++ body_text spelled (text ".#") (text ".") (text ".#.") b

-- The words of a topic with dots between them.
abbrev pub after : List Str → Str
after [] = []
after (t ∷ ts) = b'.' ∷ t ++ after ts

abbrev pub dotted : List Str → Str
dotted [] = []
dotted (t ∷ ts) = t ++ after ts

abbrev pub segment_matches : Segment → Str → Bool
segment_matches (literal s) t = s == t
segment_matches star t = true

-- The AMQP binding rules.
unfoldable pub topic_matches : List Word → List Str → Bool
topic_matches [] [] = true
topic_matches [] (t ∷ ts) = false
topic_matches (segment w ∷ ws) [] = false
topic_matches (segment w ∷ ws) (t ∷ ts) = segment_matches w t && topic_matches ws ts
topic_matches (hash ∷ ws) [] = topic_matches ws []
topic_matches (hash ∷ ws) (t ∷ ts) = topic_matches ws (t ∷ ts) || topic_matches (hash ∷ ws) ts

-- A unit that a subscription's pattern spells as it is.
abbrev pub IsPlain : ℕ → Type 0
IsPlain c = (is_syntax c ≡ false) × ((c == b'#') ≡ false)

abbrev pub IsFilled : Str → Type 0
IsFilled [] = ⊥
IsFilled (c ∷ s) = Unit

abbrev pub IsSegment : Segment → Type 0
IsSegment (literal s) = IsFilled s × All IsPlain s
IsSegment star = Unit

abbrev pub IsBody : Body → Type 0
IsBody (end w) = IsSegment w
IsBody (end_hash w) = IsSegment w
IsBody (next w b) = IsSegment w × IsBody b
IsBody (next_hash w b) = IsSegment w × IsBody b

-- The literal words are not empty, and of plain units.
abbrev pub IsSubscription : Subscription → Type 0
IsSubscription nothing = Unit
IsSubscription only_hash = Unit
IsSubscription (body b) = IsBody b
IsSubscription (hash_body b) = IsBody b

abbrev pub IsTopicUnit : ℕ → Type 0
IsTopicUnit c = (is_line_terminator c ≡ false) × ((b'.' == c) ≡ false)

-- A word of a topic: not empty, with no dot and no line terminator.
abbrev pub IsTopicWord : Str → Type 0
IsTopicWord s = IsFilled s × All IsTopicUnit s
