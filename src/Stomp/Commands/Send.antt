-- ===== src/Stomp/Commands/Send.antt =====
-- The headers of a SEND frame.

use msgs.Js.Value.{Value, truthy}
use msgs.Js.Object.{Object, get, put, assign, has, delete}
use msgs.Js.Object.Laws.{Distinct, get-delete, delete-Distinct}
use msgs.Js.Text.{Str, text, str_eq, to_upper_case}
use msgs.Js.Effect.{Outcome, ok, throw}
use msgs.Base.{
  ◌≡◌, refl, none, some, Bool-cases, inl, inr, ap, nat_eq, ◌∙◌, if◌then◌else◌, List, [], ◌∷◌, ◌++◌,
  ◌==◌, false, All, sym, arith, eq_iff,
}
use msgs.Message.{Message, header, mixin_headers}
use msgs.Message.Headers.{get-mixin_headers, assign-Distinct, or_else}
use msgs.Stomp.Frame.{build, build_headers, content_length, body_text}
use msgs.Stomp.Commands.{build_send_frame, send_headers, with_receipt}

send_headers-Distinct : (m : Message) (receipt : Value) → Distinct (send_headers m receipt)
unfolding send_headers with_receipt put assign has
send_headers-Distinct m receipt = elim (Bool-cases (truthy receipt)) [
  | inl t ↦ rw t (refl, (refl, (refl, (refl, (refl, (refl, tt))))))
  | inr f ↦ rw f (refl, (refl, (refl, (refl, (refl, tt)))))
]

-- The message of which `buildSendFrame` builds the frame.
abbrev pub send_message : Message → Value → Message
send_message m receipt = mixin_headers m (send_headers m receipt)

get_declared :
    (m : Message) (receipt : Value) (j : Str) (v : Value)
    → Distinct m.headers
    → get (send_headers m receipt) j ≡ some v
    → header (send_message m receipt) j ≡ v
unfolding header
get_declared m receipt j v d p =
    rw
      (
        get-mixin_headers m (send_headers m receipt) j d (send_headers-Distinct m receipt),
        p,
        header,
      )
      refl

declares :
    (m : Message) (receipt : Value)
    → (get (send_headers m receipt) (text "command") ≡ some (Value.str (text "SEND")))
      × (get (send_headers m receipt) (text "destination") ≡ some (header m (text "topic")))
      × (get (send_headers m receipt) (text "topic") ≡ some Value.undef)
      × (get (send_headers m receipt) (text "contentType") ≡ some Value.undef)
      × (get (send_headers m receipt) (text "receipt")
          ≡ (if truthy receipt then some receipt else none))
unfolding send_headers with_receipt put assign has get
declares m receipt = elim (Bool-cases (truthy receipt)) [
  | inl t ↦ rw t (refl, refl, refl, refl, refl)
  | inr f ↦ rw f (refl, refl, refl, refl, refl)
]

-- A header that is undefined is printed on no line.
build_headers-delete :
    (o : Object Value) (k : Str)
    → get o k ≡ some Value.undef
    → build_headers (delete o k) ≡ build_headers o
unfolding build_headers get delete
build_headers-delete [] k p = refl
build_headers-delete ((i, v) ∷ o) k p = elim (Bool-cases (i == k)) [
  | inl same ↦ let e : v ≡ Value.undef = ground (arith, same, p) in rw (same, e) (ground arith)
  | inr other ↦
      let rest = build_headers-delete o k (ground (arith, other, p)) in rw (other, rest) refl
]

has-delete_other : (o : Object Value) (k j : Str) → (k == j) ≡ false → has (delete o k) j ≡ has o j
unfolding has delete
has-delete_other [] k j p = refl
has-delete_other ((i, v) ∷ o) k j p =
    ground (arith, has-delete_other o k j, eq_iff i k, eq_iff i j, eq_iff k j)

abbrev framed : Str → Str → Str → Value → Outcome Str
framed headers length body (Value.str command) =
    ok (to_upper_case command ++ (headers ++ (length ++ (10 ∷ 10 ∷ body ++ (0 ∷ [])))))
framed headers length body _ = throw Value.type_error

build-framed :
    (m : Message)
    → build m
      ≡ framed
          (build_headers m.headers)
          (content_length m)
          (body_text m.payload)
          (header m (text "command"))
unfolding build
build-framed m = refl

build-same :
    (m : Message) (hs : Object Value)
    → header (record m { headers = hs }) (text "command") ≡ header m (text "command")
    → has hs (text "content-length") ≡ has m.headers (text "content-length")
    → build_headers hs ≡ build_headers m.headers
    → build (record m { headers = hs }) ≡ build m
build-same m hs p q r =
    let m' = record m { headers = hs } in
    let same : content_length m' ≡ content_length m = unfold content_length in rw q refl in
    rw (build-framed m', build-framed m, p, r, same) refl

-- A message without one of its headers.
abbrev pub without_header : Message → Str → Message
without_header m k = record m { headers = delete m.headers k }

build-without_header :
    (m : Message) (k : Str)
    → Distinct m.headers
    → (k == text "command") ≡ false
    → (k == text "content-length") ≡ false
    → get m.headers k ≡ some Value.undef
    → build (without_header m k) ≡ build m
unfolding header
build-without_header m k d c l p =
    build-same m (delete m.headers k)
      (rw (get-delete m.headers k (text "command") d, c, header) refl)
      (has-delete_other m.headers k (text "content-length") l) (build_headers-delete m.headers k p)

-- The names that `buildSendFrame` gives values.
abbrev pub declared_names : List Str
declared_names =
    text "command"
    ∷ text "destination"
    ∷ text "content-type"
    ∷ text "topic"
    ∷ text "contentType"
    ∷ text "receipt"
    ∷ []

not_declared :
    (m : Message) (receipt : Value) (j : Str)
    → All (λ k. (k == j) ≡ false) declared_names
    → get (send_headers m receipt) j ≡ none
unfolding send_headers with_receipt put assign has get
not_declared m receipt j (a, (b, (c, (d, (e, (f, _)))))) = elim (Bool-cases (truthy receipt)) [
  | inl t ↦ rw (t, a, b, c, d, e, f) refl
  | inr g ↦ rw (g, a, b, c, d, e) refl
]

send_message-Distinct : (m : Message) (receipt : Value) → Distinct (send_message m receipt).headers
unfolding mixin_headers
send_message-Distinct m receipt =
    assign-Distinct (assign [] m.headers) (send_headers m receipt) (assign-Distinct [] m.headers tt)

-- For a message whose header names are distinct, `buildSendFrame` builds the frame of a message in
-- which the command is SEND, the destination is the message's topic, and the headers `topic` and
-- `contentType` are undefined; the frame is that of the message without these two, so no line is
-- written for them. Every header but `command`, `destination`, `content-type`, `topic`,
-- `contentType` and `receipt` is the message's own.
pub send_message-headers :
    (m : Message) (receipt : Value)
    → Distinct m.headers
    → (build_send_frame m receipt
        ≡ build (
            without_header
              (without_header (send_message m receipt) (text "topic"))
              (text "contentType")))
      × (header (send_message m receipt) (text "command") ≡ Value.str (text "SEND"))
      × (header (send_message m receipt) (text "destination") ≡ header m (text "topic"))
      × (header (send_message m receipt) (text "topic") ≡ Value.undef)
      × (header (send_message m receipt) (text "contentType") ≡ Value.undef)
      × ((j : Str)
          → All (λ k. (k == j) ≡ false) declared_names
          → get (send_message m receipt).headers j ≡ get m.headers j)
send_message-headers m receipt d =
    let (command, destination, topic, content, _) = declares m receipt in
    let sent = send_message m receipt in
    let once = without_header sent (text "topic") in
    let distinct = send_message-Distinct m receipt in
    let get_sent : (j : Str)
        → get (send_headers m receipt) j ≡ some Value.undef
        → get sent.headers j ≡ some Value.undef =
      λ j p.
        get-mixin_headers m (send_headers m receipt) j d (send_headers-Distinct m receipt)
        ∙ ap (λ o. or_else o (get m.headers j)) p in
    (
      sym (
          build-without_header once (text "contentType")
            (delete-Distinct sent.headers (text "topic") distinct) refl refl
            (get-delete sent.headers (text "topic") (text "contentType") distinct
              ∙ get_sent (text "contentType") content)
          ∙ build-without_header sent (text "topic") distinct refl refl
              (get_sent (text "topic") topic)
          ∙ (unfold build_send_frame in refl)),
      get_declared m receipt (text "command") _ d command,
      get_declared m receipt (text "destination") _ d destination,
      get_declared m receipt (text "topic") _ d topic,
      get_declared m receipt (text "contentType") _ d content,
      λ j p.
          get-mixin_headers m (send_headers m receipt) j d (send_headers-Distinct m receipt)
          ∙ ap (λ o. or_else o (get m.headers j)) (not_declared m receipt j p),
    )
