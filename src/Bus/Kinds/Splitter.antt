-- ===== src/Bus/Kinds/Splitter.antt =====
-- msgs.js: what the splitter sends.
use msgs.Base.{
  ℕ, zero, suc, List, [], ◌∷◌, ◌++◌, ◌+◌, ◌≡◌, refl, ap, ◌∙◌, some, get_elem?, length, append-nil,
  append_assoc, arith,
}
use msgs.Js.Text.{text}
use msgs.Js.Value.{Value, Values, of_values}
use msgs.Js.Effect.{ok, pure}
use msgs.Js.Object.{Object}
use msgs.Message.{Message, header}
use msgs.Bus.Handler.{Send}
use msgs.Bus.Kinds.{send_parts, split_headers, splitter}

-- What a `send` was called with: the channel, the payload and the headers.
abbrev pub Sends : Type 0
Sends = List (Value × Value × Object Value)

unfoldable pub noted : Send Sends
noted channel payload headers out = (ok tt, out ++ (channel, payload, headers) ∷ [])

-- The call for a piece, with its number and that of all pieces.
abbrev pub call_for : Value → Message → ℕ → ℕ → Value → Value × Value × Object Value
call_for output m size k piece = (
  output,
  piece,
  (text "sequenceNumber", Value.num k)
      ∷ (text "sequenceSize", Value.num size)
      ∷ (text "correlationId", header m (text "id"))
      ∷ [],
)

calls_from : Value → Message → ℕ → ℕ → List Value → Sends
calls_from output m size index [] = []
calls_from output m size index (piece ∷ pieces) =
    call_for output m size index piece ∷ calls_from output m size (suc index) pieces

send_parts-noted :
    (output : Value) (m : Message) (size index : ℕ) (pieces : List Value) (out : Sends)
    → send_parts noted output m size index pieces out
      ≡ (ok tt, out ++ calls_from output m size index pieces)
unfolding send_parts noted split_headers calls_from
send_parts-noted output m size index [] out = rw append-nil refl
send_parts-noted output m size index (piece ∷ pieces) out =
    send_parts-noted output m size (suc index) pieces
      (out ++ call_for output m size index piece ∷ [])
    ∙ rw append_assoc refl

length-calls_from :
    (output : Value) (m : Message) (size index : ℕ) (pieces : List Value)
    → length (calls_from output m size index pieces) ≡ length pieces
unfolding calls_from
length-calls_from output m size index [] = refl
length-calls_from output m size index (piece ∷ pieces) =
    ap suc (length-calls_from output m size (suc index) pieces)

call_at :
    (output : Value) (m : Message) (size index : ℕ) (pieces : List Value) (k : ℕ) (piece : Value)
    → get_elem? pieces k ≡ some piece
    → get_elem? (calls_from output m size index pieces) k
      ≡ some (call_for output m size (index + k) piece)
unfolding calls_from
call_at output m size index [] k piece q = absurd (cc q)
call_at output m size index (x ∷ pieces) zero piece q =
    let e : x ≡ piece = cc in
    let n : index ≡ index + 0 = omega arith in
    ap (λ (y : Value × ℕ). some (call_for output m size y.1 y.0)) (λ i. (e i, n i))
call_at output m size index (x ∷ pieces) (suc k) piece q =
    call_at output m size (suc index) pieces k piece q
    ∙ ap (λ n. some (call_for output m size n piece)) (omega arith)

-- A splitter whose rule returns an array, where no send throws, calls `send` exactly once for each
-- item, in the order of the items: the channel is its output, the payload is the item, and the
-- headers are the sequence number, counted from 0, the number of items as the sequence size, and
-- the id of the message that is split as the correlation id. It returns `undefined`.
pub splitter-noted :
    (items : Values) (output next_output next_error : Value) (m : Message)
    → let (r, sends) =
        splitter noted (λ m'. pure (Value.array items)) output m next_output next_error [] in
      (r ≡ ok Value.undef)
      × (length sends ≡ length (of_values items))
      × ((k : ℕ) (piece : Value)
          → get_elem? (of_values items) k ≡ some piece
          → get_elem? sends k ≡ some (call_for output m (length (of_values items)) k piece))
unfolding splitter
splitter-noted items output next_output next_error m =
    let size = length (of_values items) in
    rw (send_parts-noted output m size 0 (of_values items) []) (
      refl,
      length-calls_from output m size 0 (of_values items),
      λ k piece p.
          call_at output m size 0 (of_values items) k piece p
          ∙ ap (λ n. some (call_for output m size n piece)) (let e : 0 + k ≡ k = omega arith in e),
    )
