-- ===== src/Bus/Kinds/Splitting.antt =====
-- The splitter and the correlating aggregator together.
use mathlib.Core.List.{Permᴰ}
use msgs.Message.{Factory, Message, new_message, header}
use msgs.Base.{
  List, [], append-nil, append_assoc, refl, suc, ℕ, ◌++◌, ◌∙◌, ◌∷◌, ◌≡◌, some, true, All, ap, arith,
  length, ◌<◌, none, sym,
}
use msgs.Bus.Handler.{Send}
use msgs.Aggregators.Correlating.Arrivals.{run, Released, Mixed, parts-Released}
use msgs.Aggregators.Correlating.{Buckets}
use msgs.Js.Object.Laws.{Distinct}
use msgs.Js.Effect.{pure}
use msgs.Bus.Kinds.{splitter}
use msgs.Base.{map, get_elem?, zero, ◌+◌, subst}
use msgs.Js.Object.{Object}
use msgs.Message.{mixin_headers, wrap}
use msgs.Js.Value.{Values, of_values}
use msgs.Base.{none, sym, nat_eq}
use msgs.Js.Value.{Value, truthy, Values, of_values}
use msgs.Bus.Kinds.{send_parts, split_headers, splitter}
use msgs.Js.Effect.{ok, pure}
use msgs.Js.Text.{Str, text}
use msgs.Aggregators.Correlating.Arrivals.{IsPart, Mixed, Released, parts-Released}
use msgs.Message.Headers.{new_message-declared}
use msgs.Aggregators.Correlating.{sequence_number, Buckets}
use msgs.Js.Object.{get, has}
use msgs.Aggregators.Correlating.Sort.{Ascending}
use msgs.Js.Object.Laws.{Distinct}

-- The bus's `send` where every channel keeps what it is sent: the bus makes the message, which is
-- stored with the channel.
abbrev pub Outbox : Type 0
Outbox = Factory × List (Value × Message)

unfoldable pub keep : Send Outbox
keep channel payload headers (f, out) =
    let (m, f') = new_message f payload headers in (ok tt, (f', out ++ (channel, m) ∷ []))

-- What a splitter sends of a message for which its rule returns these items, with where it sends it.
unfoldable pub split_by : Factory → Message → Value → Values → List (Value × Message)
unfolding splitter keep
split_by f m output items =
    (splitter keep (λ m'. pure (Value.array items)) output m Value.undef Value.undef (f, [])).1.1

-- The messages of the pieces of `m`, numbered from `index`, and the bus afterwards.
unfoldable pub parts_from : Factory → Message → ℕ → ℕ → List Value → List Message × Factory
parts_from f m size index [] = ([], f)
parts_from f m size index (piece ∷ pieces) =
    let (p, f') = new_message f piece (split_headers m size index) in
    let (ps, f'') = parts_from f' m size (suc index) pieces in (p ∷ ps, f'')

abbrev to_output : Value → Message → Value × Message
to_output output p = (output, p)

send_parts-keep :
    (output : Value) (m : Message) (size index : ℕ) (pieces : List Value) (f : Factory)
    (out : List (Value × Message))
    → send_parts keep output m size index pieces (f, out) ≡ (
      ok tt,
      (
        (parts_from f m size index pieces).1,
        out ++ map (to_output output) (parts_from f m size index pieces).0,
      ),
    )
unfolding send_parts parts_from keep
send_parts-keep output m size index [] f out = rw append-nil refl
send_parts-keep output m size index (piece ∷ pieces) f out =
    let (p, f') = new_message f piece (split_headers m size index) in
    send_parts-keep output m size (suc index) pieces f' (out ++ (output, p) ∷ [])
    ∙ rw append_assoc refl

declared :
    (f : Factory) (m : Message) (size index : ℕ) (piece : Value) (j : Str) (v : Value)
    → get (split_headers m size index) j ≡ some v
    → header (new_message f piece (split_headers m size index)).0 j ≡ v
unfolding header split_headers has
declared f m size index piece j v p =
    rw
      (
        new_message-declared f piece (split_headers m size index) j v (refl, (refl, (refl, tt))) p,
        header,
      )
      refl

-- `m` has the string id `id`, as every message of a bus that declares none.
abbrev pub HasId : Message → Str → Type 0
HasId m id = (header m (text "id") ≡ Value.str id) × (truthy (Value.str id) ≡ true)

new_message-IsPart :
    (f : Factory) (m : Message) (id : Str) (size index : ℕ) (piece : Value)
    → HasId m id
    → IsPart id size (new_message f piece (split_headers m size index)).0
new_message-IsPart f m id size index piece (h, t) = record {
  correlation =
      declared f m size index piece (text "correlationId") (Value.str id)
        (unfold split_headers get in ap some h);
  named = t;
  sequence_size =
      declared f m size index piece (text "sequenceSize") (Value.num size)
        (unfold split_headers get in refl);
}

part-number :
    (f : Factory) (m : Message) (size index : ℕ) (piece : Value)
    → sequence_number (new_message f piece (split_headers m size index)).0 ≡ index
unfolding sequence_number
part-number f m size index piece =
    rw
      (
        declared f m size index piece (text "sequenceNumber") (Value.num index)
            (unfold split_headers get in refl),
        sequence_number,
      )
      refl

parts_from-IsPart :
    (f : Factory) (m : Message) (id : Str) (size index : ℕ) (pieces : List Value)
    → HasId m id
    → All (IsPart id size) (parts_from f m size index pieces).0
unfolding parts_from
parts_from-IsPart f m id size index [] h = tt
parts_from-IsPart f m id size index (piece ∷ pieces) h = (
  new_message-IsPart f m id size index piece h,
  parts_from-IsPart (new_message f piece (split_headers m size index)).1 m id size (suc index)
      pieces h,
)

-- The numbers of the parts start at `index` and ascend.
numbers_above :
    (f : Factory) (m : Message) (size index n : ℕ) (pieces : List Value)
    → n < index
    → All (λ x. n < sequence_number x) (parts_from f m size index pieces).0
unfolding parts_from
numbers_above f m size index n [] lt = tt
numbers_above f m size index n (piece ∷ pieces) lt = (
  rw (part-number f m size index piece) lt,
  numbers_above (new_message f piece (split_headers m size index)).1 m size (suc index) n pieces
      (omega arith),
)

parts_from-Ascending :
    (f : Factory) (m : Message) (size index : ℕ) (pieces : List Value)
    → Ascending (parts_from f m size index pieces).0
unfolding parts_from
parts_from-Ascending f m size index [] = tt
parts_from-Ascending f m size index (piece ∷ pieces) = (
  rw (part-number f m size index piece) (
      numbers_above (new_message f piece (split_headers m size index)).1 m size (suc index) index
        pieces (omega arith)),
  parts_from-Ascending (new_message f piece (split_headers m size index)).1 m size (suc index)
      pieces,
)

length-parts_from :
    (f : Factory) (m : Message) (size index : ℕ) (pieces : List Value)
    → length (parts_from f m size index pieces).0 ≡ length pieces
unfolding parts_from
length-parts_from f m size index [] = refl
length-parts_from f m size index (piece ∷ pieces) = ap suc (
    length-parts_from (new_message f piece (split_headers m size index)).1 m size (suc index)
      pieces)

length-permᴰ : {xs ys : List Message} → Permᴰ xs ys → length xs ≡ length ys
length-permᴰ Permᴰ.nil = refl
length-permᴰ (Permᴰ.cons p q) = ap suc (length-permᴰ q)
length-permᴰ (Permᴰ.swap p q) = refl
length-permᴰ (Permᴰ.trans q r) = length-permᴰ q ∙ length-permᴰ r

-- The payload of a message that is made of a piece: a piece that is a message gives its own.
abbrev pub payload_of : Value → Value
payload_of (Value.message_object payload headers) = payload
payload_of piece = piece

payload-new_message :
    (f : Factory) (piece : Value) (headers : Object Value)
    → (new_message f piece headers).0.payload ≡ payload_of piece
unfolding new_message wrap mixin_headers
payload-new_message f Value.undef headers = refl
payload-new_message f Value.null headers = refl
payload-new_message f Value.nan headers = refl
payload-new_message f Value.type_error headers = refl
payload-new_message f (Value.bool b) headers = refl
payload-new_message f (Value.num n) headers = refl
payload-new_message f (Value.str s) headers = refl
payload-new_message f (Value.error_object s) headers = refl
payload-new_message f (Value.channel_ref c) headers = refl
payload-new_message f (Value.handler_ref h) headers = refl
payload-new_message f (Value.array vs) headers = refl
payload-new_message f (Value.message_object p h) headers = refl

-- The `k`th of what is sent is a message for this piece, to the channel `output`, with the number `k`.
abbrev pub IsPieceAt : List (Value × Message) → Value → ℕ → Value → Type 0
IsPieceAt sent output k piece =
    (p : Message) × (get_elem? sent k ≡ some (output, p))
    × (p.payload ≡ payload_of piece)
    × (header p (text "sequenceNumber") ≡ Value.num k)

part_at :
    (output : Value) (m : Message) (size index : ℕ) (pieces : List Value) (f : Factory) (k : ℕ)
    (piece : Value)
    → get_elem? pieces k ≡ some piece
    → (p : Message) × (get_elem? (map (to_output output) (parts_from f m size index pieces).0) k
        ≡ some (output, p))
      × (p.payload ≡ payload_of piece)
      × (header p (text "sequenceNumber") ≡ Value.num (index + k))
unfolding parts_from
part_at output m size index [] f k piece q = absurd (cc q)
part_at output m size index (x ∷ pieces) f zero piece q = (
  (new_message f x (split_headers m size index)).0,
  refl,
  payload-new_message f x (split_headers m size index)
      ∙ ap payload_of (let e : x ≡ piece = cc in e),
  declared f m size index x (text "sequenceNumber") (Value.num index)
        (unfold split_headers get in refl)
      ∙ ap Value.num (omega arith),
)
part_at output m size index (x ∷ pieces) f (suc k) piece q =
    let (p, here, payload, number) =
      part_at output m size (suc index) pieces (new_message f x (split_headers m size index)).1 k
        piece q in
    (p, here, payload, number ∙ ap Value.num (omega arith))

split_by-parts :
    (f : Factory) (m : Message) (output : Value) (items : Values)
    → split_by f m output items
      ≡ map (to_output output) (parts_from f m (length (of_values items)) 0 (of_values items)).0
unfolding split_by splitter
split_by-parts f m output items =
    rw
      (
        split_by,
        splitter,
        send_parts-keep output m (length (of_values items)) 0 (of_values items) f [],
      )
      refl

abbrev pub messages_of : List (Value × Message) → List Message
messages_of sent = map (λ p. p.1) sent

messages_of-to_output :
    (output : Value) (ps : List Message) → messages_of (map (to_output output) ps) ≡ ps
messages_of-to_output output [] = refl
messages_of-to_output output (p ∷ ps) = ap (λ qs. p ∷ qs) (messages_of-to_output output ps)

-- Of the items that its rule returns for a message with a string id, at least one, a splitter sends
-- exactly one message each to its output, in the order of the items: the payload is the item, or
-- that of the item if it is a message, and the sequence number is the place of the item, counted
-- from 0. Arriving at a correlating aggregator in any order and among messages with other ids,
-- these are released once all have come, as one list in the order of the items, and the aggregator
-- keeps nothing of them. The aggregator had nothing of that id, and neither its release nor a send
-- of the splitter fails.
pub split-Released :
    (f : Factory) (m : Message) (id : Str) (output : Value) (items : Values)
    {ms mine : List Message} (buckets : Buckets) (out : List (List Message))
    → HasId m id
    → 0 < length (of_values items)
    → Mixed id (length (of_values items)) ms mine
    → Permᴰ (messages_of (split_by f m output items)) mine
    → Distinct buckets
    → get buckets id ≡ none
    → (length (messages_of (split_by f m output items)) ≡ length (of_values items))
      × ((k : ℕ) (piece : Value)
          → get_elem? (of_values items) k ≡ some piece
          → IsPieceAt (split_by f m output items) output k piece)
      × Released id
          (length (of_values items))
          (messages_of (split_by f m output items))
          (run ms (buckets, out))
split-Released f m id output items {mine = mine} buckets out h pos mixed q d new =
    let pieces = of_values items in
    let size = length pieces in
    let parts = (parts_from f m (length pieces) 0 pieces).0 in
    let same : messages_of (split_by f m output items) ≡ parts =
      ap messages_of (split_by-parts f m output items) ∙ messages_of-to_output output parts in
    let q' = subst (λ xs. Permᴰ xs mine) same q in
    (
      rw same (length-parts_from f m size 0 pieces),
      λ k piece p. rw (split_by-parts f m output items) (
          let (p', here, payload, number) = part_at output m size 0 pieces f k piece p in
          (p', here, payload, number ∙ ap Value.num (omega arith))),
      rw same (
          parts-Released id (length pieces) buckets out mixed q'
            (parts_from-Ascending f m (length pieces) 0 pieces)
            (sym (length-permᴰ q') ∙ length-parts_from f m (length pieces) 0 pieces) pos d new),
    )
