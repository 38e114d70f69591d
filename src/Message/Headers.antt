-- ===== src/Message/Headers.antt =====
-- The headers that a message ends up with.
use msgs.Base.{
  ◌≡◌, refl, [], ◌∷◌, Option, none, some, arith, eq_iff, Bool-cases, ap, inl, inr, nat_eq, ◌∙◌,
}
use msgs.Js.Text.{Str, str_eq, text}
use msgs.Js.Value.{Value, of_fields}
use msgs.Js.Object.{Object, get, put, assign, has}
use msgs.Js.Object.Laws.{get-put, get_of_not_has, Distinct, put-Distinct}
use msgs.Message.{Message, mixin_headers, Factory, clone, id_text, mixin, new_message, stamp, wrap}

-- The first of two that is there.
abbrev pub or_else {ℓ} : {A : Type ℓ} → Option A → Option A → Option A
or_else none o = o
or_else (some a) o = some a

module _ {ℓ} {V : Type ℓ} where
  -- A property of what is written over wins.
  pub get-assign :
      (o from : Object V) (j : Str)
      → Distinct from
      → get (assign o from) j ≡ or_else (get from j) (get o j)
  unfolding get assign
  get-assign o [] j d = refl
  get-assign o ((k, v) ∷ from) j d =
      ground
        (arith, get-assign (put o k v) from j, get-put o k j v, eq_iff k j, get_of_not_has from j)

  pub assign-Distinct : (o from : Object V) → Distinct o → Distinct (assign o from)
  unfolding assign
  assign-Distinct o [] d = d
  assign-Distinct o ((k, v) ∷ from) d = assign-Distinct (put o k v) from (put-Distinct o k v d)

or_else-none {ℓ} : {A : Type ℓ} (o : Option A) → or_else o none ≡ o
or_else-none none = refl
or_else-none (some a) = refl

-- In `message.mixin(declaredHeaders)` a declared header wins over the message's own, and every other
-- header is kept; the names of each of the two are distinct.
pub get-mixin_headers :
    (m : Message) (d : Object Value) (j : Str)
    → Distinct m.headers
    → Distinct d
    → get (mixin_headers m d).headers j ≡ or_else (get d j) (get m.headers j)
unfolding mixin_headers get
get-mixin_headers m d j dm dd =
    rw
      (
        get-assign (assign [] m.headers) d j dd,
        get-assign [] m.headers j dm,
        or_else-none (get m.headers j),
      )
      refl

stamp-Distinct : (f : Factory) (d : Object Value) → Distinct (stamp f d).0
unfolding stamp clone mixin
stamp-Distinct f d = elim (Bool-cases (has d (text "id"))) [
  | inl p ↦ rw p (assign-Distinct [] d tt)
  | inr p ↦ rw p (put-Distinct (assign [] d) (text "id") _ (assign-Distinct [] d tt))
]

get-clone : {V : Type 0} (d : Object V) (j : Str) → Distinct d → get (assign [] d) j ≡ get d j
unfolding get
get-clone d j w = get-assign [] d j w ∙ or_else-none (get d j)

stamp-declared :
    (f : Factory) (d : Object Value) (j : Str) (v : Value)
    → Distinct d
    → get d j ≡ some v
    → get (stamp f d).0 j ≡ some v
unfolding stamp clone mixin
stamp-declared f d j v w p = elim (Bool-cases (has d (text "id"))) [
  | inl q ↦ rw q (get-clone d j w ∙ p)
  | inr q ↦ rw q (
      ground (
        arith,
        get-put (assign [] d) (text "id") j (Value.str (id_text f.bus_id f.next_message)),
        get-clone d j w,
        eq_iff (text "id") j,
        get_of_not_has d (text "id") q,
      ))
]

wrap-declared :
    (payload : Value) (h : Object Value) (j : Str) (v : Value)
    → Distinct h
    → get h j ≡ some v
    → get (wrap payload h).headers j ≡ some v
unfolding wrap mixin_headers
wrap-declared (Value.message_object p o) h j v w q =
    get-assign (assign [] (of_fields o)) h j w
    ∙ ap (λ x. or_else x (get (assign [] (of_fields o)) j)) q
wrap-declared (Value.undef) h j v w q = q
wrap-declared _ h j v w q = q

-- Every declared header of a new message is what was declared, also where the payload is a message
-- that has a header of that name; the declared names are distinct.
pub new_message-declared :
    (f : Factory) (payload : Value) (d : Object Value) (j : Str) (v : Value)
    → Distinct d
    → get d j ≡ some v
    → get (new_message f payload d).0.headers j ≡ some v
unfolding new_message
new_message-declared f payload d j v w p =
    wrap-declared payload (stamp f d).0 j v (stamp-Distinct f d) (stamp-declared f d j v w p)
