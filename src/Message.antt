-- ===== src/Message.antt =====
-- msgs.js: `counter`, `mixin`, `Message`, `Message.prototype.mixin`, `isMessage` and the bus's
-- `_message`. A bus gives a message its id from its own number and its own counter.
pub mod Headers
pub mod Ids
use msgs.Base.{ℕ, suc, ◌++◌, ◌∷◌, [], if◌then◌else◌, none, some}
use msgs.Js.Text.{Str, text}
use msgs.Js.Decimal.{decimal}
use msgs.Js.Value.{Value, of_fields}
use msgs.Js.Value
use msgs.Js.Object.{Object, put, has, assign, get}

-- `count++`: what `increment` returns, and the new `count`
unfoldable pub increment : ℕ → ℕ × ℕ
increment count = (count, suc count)

-- the two forms of `mixin`: a copy of one object, and one object written over another
unfoldable pub mixin {ℓ} : {V : Type ℓ} → Object V → Object V → Object V
mixin target props = assign target props

unfoldable pub clone {ℓ} : {V : Type ℓ} → Object V → Object V
unfolding mixin
clone props = mixin [] props

pub record Message : Type 0 where
  pub payload : Value
  pub headers : Object Value

-- `message.mixin(payload, declaredHeaders)`; `message.mixin(declaredHeaders)` is `mixin_headers`
unfoldable pub mixin_message : Message → Value → Object Value → Message
unfolding clone mixin
mixin_message m payload declared_headers = record {
  payload = payload;
  headers = mixin (clone m.headers) declared_headers;
}

unfoldable pub mixin_headers : Message → Object Value → Message
unfolding mixin_message
mixin_headers m declared_headers = mixin_message m m.payload declared_headers

-- What `_message` reads and writes of its bus.
pub record Factory : Type 0 where
  pub bus_id : ℕ
  pub next_message : ℕ

-- `busId + '-' + messageCounter()`
unfoldable pub id_text : ℕ → ℕ → Str
id_text bus_id n = decimal bus_id ++ b'-' ∷ decimal n

-- The headers of a new message, and the bus afterwards.
unfoldable pub stamp : Factory → Object Value → Object Value × Factory
unfolding increment id_text clone mixin
stamp f declared_headers =
    let headers = clone declared_headers in
    let (n, next) = increment f.next_message in
    if has declared_headers (text "id") then (headers, f) else (
      put headers (text "id") (Value.str (id_text f.bus_id n)),
      record f { next_message = next },
    )

-- `this.isMessage(payload) ? payload.mixin(headers) : new Message(payload, headers)`
unfoldable pub wrap : Value → Object Value → Message
unfolding mixin_headers
wrap (Value.message_object p h) headers =
    mixin_headers (record { payload = p; headers = of_fields h }) headers
wrap payload headers = record { payload = payload; headers = headers }

-- `_message(payload, declaredHeaders)`
unfoldable pub new_message : Factory → Value → Object Value → Message × Factory
unfolding stamp wrap
new_message f payload declared_headers =
    let (headers, f') = stamp f declared_headers in (wrap payload headers, f')

-- `message.headers.name`
unfoldable pub header : Message → Str → Value
header m name = elim (get m.headers name) [ none ↦ Value.undef | some v ↦ v ]
