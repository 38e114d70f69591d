-- ===== src/Aggregators/Correlating.antt =====
-- aggregators/correlating.js: messages are collected in a bucket for each correlation id, and the
-- bucket is released, sorted, when it has as many messages as its newest message says.
pub mod Sort
pub mod Arrivals
use msgs.Js.Effect.{Js, get_state, ok, set_state, ◌>>=◌, ◌>>◌}
use msgs.Base.{Bool, List, [], false, if◌then◌else◌, leb, length, none, some, true, ℕ, ◌++◌, ◌∷◌}
use msgs.Js.Text.{Str, text}
use msgs.Js.Object.{digits_value, Object, delete, get, put}
use msgs.Js.Value.{Value, to_string, truthy}
use msgs.Message.{Message, header}

-- `buckets`
abbrev pub Buckets : Type 0
Buckets = Object (List Message)

-- `a >= b` of a length and a header. A string is read as a decimal number, and as no bound if it is
-- none; an array is no bound.
unfoldable pub at_least : ℕ → Value → Bool
unfolding digits_value
at_least n (Value.num k) = leb k n
at_least n (Value.bool true) = leb 1 n
at_least n (Value.bool false) = true
at_least n Value.null = true
at_least n (Value.str s) = elim (digits_value 0 s) [ none ↦ false | some k ↦ leb k n ]
at_least n _ = false

-- The number that `sequenceNumberComparator` subtracts.
unfoldable pub sequence_number : Message → ℕ
unfolding header
sequence_number m = elim (header m (text "sequenceNumber")) [ Value.num n ↦ n | _ ↦ 0 ]

-- `bucket.sort(sequenceNumberComparator)`, which is stable
insert_sorted : Message → List Message → List Message
insert_sorted m [] = m ∷ []
insert_sorted m (x ∷ xs) =
    if leb (sequence_number m) (sequence_number x) then m ∷ x ∷ xs else x ∷ insert_sorted m xs

unfoldable pub sort : List Message → List Message
unfolding insert_sorted
sort [] = []
sort (m ∷ ms) = insert_sorted m (sort ms)

-- `buckets[correlationId] || []`
unfoldable pub bucket_of : Buckets → Str → List Message
bucket_of buckets id = elim (get buckets id) [ none ↦ [] | some b ↦ b ]

module _ {W : Type 0} (release : List Message → Js (Buckets × W) (Unit {0})) where
  -- What is in the map while the bucket is released is the sorted bucket: it is sorted in place.
  complete : Str → List Message → Js (Buckets × W) (Unit {0})
  complete id bucket (buckets, w) =
      (do release (sort bucket); (buckets', w') ← get_state; set_state (delete buckets' id, w'))
        (put buckets id (sort bucket), w)

  collect_in : Str → Value → List Message → Js (Buckets × W) (Unit {0})
  unfolding complete
  collect_in id size bucket (buckets, w) =
      if at_least (length bucket) size
      then complete id bucket (buckets, w)
      else (ok tt, (put buckets id bucket, w))

  -- The aggregator's function. The map's key is the id as a string.
  unfoldable pub on_message : Message → Js (Buckets × W) (Unit {0})
  unfolding collect_in bucket_of
  on_message m (buckets, w) =
      let id = header m (text "correlationId") in
      let key = to_string id in
      if truthy id
      then collect_in key (header m (text "sequenceSize")) (bucket_of buckets key ++ m ∷ [])
          (buckets, w)
      else (ok tt, (buckets, w))
