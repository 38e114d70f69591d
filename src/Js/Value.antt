-- ===== src/Js/Value.antt =====
-- The values that the program passes on. Numbers are the non-negative integers and NaN; channels
-- and handlers are references to objects of the heap.
use msgs.Base.{ℕ, zero, suc, Bool, true, false, List, [], ◌∷◌, ◌++◌}
use msgs.Js.Text.{Str, text}
use msgs.Js.Decimal.{decimal}

mutual
  pub data Value : Type 0 where
    undef null nan type_error : Value
    bool : Bool → Value
    num : ℕ → Value
    str : Str → Value
    -- an `Error` with its message
    error_object : Str → Value
    channel_ref handler_ref : ℕ → Value
    array : Values → Value
    message_object : Value → Fields → Value

  pub data Values : Type 0 where
    nil : Values
    cons : Value → Values → Values

  pub data Fields : Type 0 where
    end : Fields
    field : Str → Value → Fields → Fields

-- The test of `if (v)`.
unfoldable pub truthy : Value → Bool
truthy undef = false
truthy null = false
truthy nan = false
truthy (bool b) = b
truthy (num zero) = false
truthy (num (suc n)) = true
truthy (str []) = false
truthy (str (c ∷ s)) = true
truthy _ = true

abbrev pub to_values : List Value → Values
to_values [] = nil
to_values (v ∷ vs) = cons v (to_values vs)

abbrev pub of_values : Values → List Value
of_values nil = []
of_values (cons v vs) = v ∷ of_values vs

abbrev pub to_fields : List (Str × Value) → Fields
to_fields [] = end
to_fields ((k, v) ∷ o) = field k v (to_fields o)

abbrev pub of_fields : Fields → List (Str × Value)
of_fields end = []
of_fields (field k v o) = (k, v) ∷ of_fields o

-- An undefined or null item of an array prints as nothing.
abbrev pub shown : Value → Str → Str
shown undef s = []
shown null s = []
shown _ s = s

-- `'' + v`. The message of a TypeError is not modelled, and every other object prints alike.
unfoldable mutual
  unfolding decimal

  pub to_string : Value → Str
  to_string undef = text "undefined"
  to_string null = text "null"
  to_string nan = text "NaN"
  to_string type_error = text "TypeError"
  to_string (bool true) = text "true"
  to_string (bool false) = text "false"
  to_string (num n) = decimal n
  to_string (str s) = s
  to_string (error_object s) = text "Error: " ++ s
  to_string (channel_ref n) = text "[object Object]"
  to_string (handler_ref n) = text "[object Object]"
  to_string (message_object p h) = text "[object Object]"
  to_string (array vs) = join_items vs

  -- The items of an array are joined by commas.
  pub join_items : Values → Str
  join_items nil = []
  join_items (cons v nil) = shown v (to_string v)
  join_items (cons v (cons w ws)) = shown v (to_string v) ++ b',' ∷ join_items (cons w ws)
