-- ===== src/System/DeadLetters/Letters.antt =====
-- msgs.js: what a message keeps when it is sent on as a dead letter.
use msgs.Base.{
  true, Option, none, some, [], ◌∷◌, ◌≡◌, refl, ap, ◌∙◌, nat_eq, ◌==◌, if◌then◌else◌, Bool-cases,
  inl, inr,
}
use msgs.Js.Text.{Str, str_eq, text}
use msgs.Js.Value.{Value, of_fields, to_fields}
use msgs.Js.Object.{Object, get, has, put, assign}
use msgs.Js.Object.Laws.{Distinct, get_of_has, has_of_get, put-Distinct}
use msgs.Message.{Message, Factory, new_message, stamp, clone, mixin, wrap, mixin_headers, id_text}
use msgs.Message.Headers.{get-assign, assign-Distinct, or_else, get-mixin_headers}
use msgs.Bus.Handler.{as_value}
use msgs.System.DeadLetters.{forwarded}

fields_lem : (o : Object Value) → of_fields (to_fields o) ≡ o
fields_lem [] = refl
fields_lem ((k, v) ∷ o) = ap (λ r. (k, v) ∷ r) (fields_lem o)

or_else_same {ℓ} : {A : Type ℓ} (o : Option A) → or_else o o ≡ o
or_else_same none = refl
or_else_same (some a) = refl

or_else-none {ℓ} : {A : Type ℓ} (o : Option A) → or_else o none ≡ o
or_else-none none = refl
or_else-none (some a) = refl

-- A message that is sent as the payload of a message with these headers.
wrap-as_value : (m : Message) (h : Object Value) → wrap (as_value m) h ≡ mixin_headers m h
unfolding wrap
wrap-as_value m h =
    ap (λ o. mixin_headers (record { payload = m.payload; headers = o }) h) (fields_lem m.headers)

mixin-Distinct : (m : Message) (h : Object Value) → Distinct (mixin_headers m h).headers
unfolding mixin_headers
mixin-Distinct m h = assign-Distinct (assign [] m.headers) h (assign-Distinct [] m.headers tt)

clone-Distinct : (o : Object Value) → Distinct (clone o)
unfolding clone mixin
clone-Distinct o = assign-Distinct [] o tt

get-clone : (o : Object Value) (j : Str) → Distinct o → get (clone o) j ≡ get o j
unfolding clone mixin get
get-clone o j d = get-assign [] o j d ∙ or_else-none (get o j)

-- A message that has an id, and whose header names are distinct.
abbrev pub IsLetter : Message → Type 0
IsLetter m = Distinct m.headers × (has m.headers (text "id") ≡ true)

forwarded_lem : (m : Message) → forwarded m ≡ mixin_headers m (clone m.headers)
unfolding forwarded
forwarded_lem m = wrap-as_value m (clone m.headers)

pub get-forwarded :
    (m : Message) (j : Str) → Distinct m.headers → get (forwarded m).headers j ≡ get m.headers j
get-forwarded m j d =
    ap (λ x. get x.headers j) (forwarded_lem m)
    ∙ get-mixin_headers m (clone m.headers) j d (clone-Distinct m.headers)
    ∙ rw (get-clone m.headers j d) (or_else_same (get m.headers j))

pub forwarded-IsLetter : (m : Message) → IsLetter m → IsLetter (forwarded m)
forwarded-IsLetter m (d, i) = (
  rw (forwarded_lem m) (mixin-Distinct m (clone m.headers)),
  (let (v, p) = get_of_has m.headers (text "id") i in
      has_of_get (forwarded m).headers (text "id") v (get-forwarded m (text "id") d ∙ p)),
)

pub payload-forwarded : (m : Message) → (forwarded m).payload ≡ m.payload
payload-forwarded m = ap (λ x. x.payload) (forwarded_lem m) ∙ unfold mixin_headers in refl

stamp-Distinct : (f : Factory) (d : Object Value) → Distinct (stamp f d).0
unfolding stamp clone mixin
stamp-Distinct f d = elim (Bool-cases (has d (text "id"))) [
  | inl p ↦ rw p (assign-Distinct [] d tt)
  | inr p ↦ rw p (put-Distinct (assign [] d) (text "id") _ (assign-Distinct [] d tt))
]

wrap-Distinct : (p : Value) (h : Object Value) → Distinct h → Distinct (wrap p h).headers
unfolding wrap
wrap-Distinct (Value.message_object p o) h d =
    mixin-Distinct (record { payload = p; headers = of_fields o }) h
wrap-Distinct Value.undef h d = d
wrap-Distinct _ h d = d

pub new_message-Distinct :
    (f : Factory) (payload : Value) (h : Object Value)
    → Distinct (new_message f payload h).0.headers
unfolding new_message
new_message-Distinct f payload h = wrap-Distinct payload (stamp f h).0 (stamp-Distinct f h)

-- The message that `this.send(channel, message)` makes of a message: it has a new id.
unfoldable pub renewed : Factory → Message → Message
unfolding new_message
renewed f m = (new_message f (as_value m) []).0

renewed_lem : (f : Factory) (m : Message) → renewed f m ≡ mixin_headers m (stamp f []).0
unfolding renewed
renewed_lem f m = wrap-as_value m (stamp f []).0

new_id : Factory → Value
new_id f = Value.str (id_text f.bus_id f.next_message)

get-new_id :
    (f : Factory) (j : Str)
    → get (stamp f []).0 j ≡ (if text "id" == j then some (new_id f) else none)
unfolding stamp clone mixin put has get assign new_id
get-new_id f j = refl

pub get-renewed :
    (f : Factory) (m : Message) (j : Str)
    → Distinct m.headers
    → get (renewed f m).headers j ≡ (
        if text "id" == j
        then some (Value.str (id_text f.bus_id f.next_message))
        else get m.headers j)
unfolding new_id
get-renewed f m j d =
    ap (λ x. get x.headers j) (renewed_lem f m)
    ∙ get-mixin_headers m (stamp f []).0 j d (stamp-Distinct f [])
    ∙ elim (Bool-cases (text "id" == j)) [
      | inl same ↦ rw (get-new_id f j, same) refl
      | inr differs ↦ rw (get-new_id f j, differs) refl
    ]

pub payload-renewed : (f : Factory) (m : Message) → (renewed f m).payload ≡ m.payload
payload-renewed f m = ap (λ x. x.payload) (renewed_lem f m) ∙ unfold mixin_headers in refl

pub renewed-IsLetter : (f : Factory) (m : Message) → Distinct m.headers → IsLetter (renewed f m)
renewed-IsLetter f m d = (
  rw (renewed_lem f m) (mixin-Distinct m (stamp f []).0),
  has_of_get (renewed f m).headers (text "id") _ (get-renewed f m (text "id") d),
)
