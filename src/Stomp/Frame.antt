-- ===== src/Stomp/Frame.antt =====
-- `build` and `parse`, and the string methods that they use. `LF` is 10, `CR` 13 and `NULL` 0.

pub mod Split
pub mod RoundTrip
use msgs.Js.Object.{Object, has, put}
use msgs.Base.{
  Bool, List, Option, [], drop, eqb, false, if◌then◌else◌, length, ltb, nat_eq, none, not, some,
  true, ℕ, ◌&&◌, ◌++◌, ◌+◌, ◌==◌, ◌∷◌,
}
use msgs.Js.Value.{Value, of_values, to_string, truthy}
use msgs.Js.Effect.{Outcome, ok, throw}
use msgs.Message.{Factory, Message, header, new_message}
use msgs.Js.Text.{Str, str_eq, text, to_upper_case}
use msgs.Js.Decimal.{decimal}

-- The length of the match of `\r?\n` at the front; none if it does not match.
line_end : Str → Option ℕ
line_end [] = none
line_end (c ∷ []) = if eqb c 10 then some 1 else none
line_end (c ∷ d ∷ s) = if eqb c 10 then some 1 else if eqb c 13 && eqb d 10 then some 2 else none

-- The length of the match of `(\r?\n){2}` at the front.
double_end : Str → Option ℕ
unfolding line_end
double_end s = elim (line_end s) [
  | none ↦ none
  | some n ↦ elim (line_end (drop n s)) [ none ↦ none | some m ↦ some (n + m) ]
]

-- `frame.match(HEADER_BODY_SPLITTER)`: what stands before the first match, and what stands behind
unfoldable pub split_frame : Str → Option (Str × Str)
unfolding double_end
split_frame [] = none
split_frame (c ∷ s) =
    let rest = split_frame s in
    elim (double_end (c ∷ s)) [
      | some n ↦ some ([], drop n (c ∷ s))
      | none ↦ elim rest [ none ↦ none | some (h, b) ↦ some (c ∷ h, b) ]
    ]

-- Puts a unit in front of the first piece.
onto_first : ℕ → List Str → List Str
onto_first c [] = (c ∷ []) ∷ []
onto_first c (p ∷ ps) = (c ∷ p) ∷ ps

-- `s.split(c)` at a single unit
unfoldable pub split_at : ℕ → Str → List Str
unfolding onto_first
split_at sep [] = [] ∷ []
split_at sep (c ∷ s) =
    let rest = split_at sep s in if eqb c sep then [] ∷ rest else onto_first c rest

-- `s.split(LINE_SPLITTER)`, which has no piece for the units of `\r\n`
unfoldable pub split_lines : Str → List Str
unfolding onto_first
split_lines [] = [] ∷ []
split_lines (c ∷ []) = if eqb c 10 then [] ∷ [] ∷ [] else (c ∷ []) ∷ []
split_lines (c ∷ d ∷ s) =
    let rest = split_lines (d ∷ s) in
    let after = split_lines s in
    if eqb c 10 then [] ∷ rest else if eqb c 13 && eqb d 10 then [] ∷ after else onto_first c rest

-- `components.join(':')`
unfoldable pub join_with : ℕ → List Str → Str
join_with sep [] = []
join_with sep (p ∷ []) = p
join_with sep (p ∷ q ∷ ps) = p ++ sep ∷ join_with sep (q ∷ ps)

-- `headers[components.shift()] = components.join(HEADER_SEPARAROR)`
put_components : Object Value → List Str → Object Value
unfolding join_with
put_components o [] = put o (text "undefined") (Value.str [])
put_components o (name ∷ value) = put o name (Value.str (join_with b':' value))

unfoldable pub parse_headers : Object Value → List Str → Object Value
unfolding put_components split_at
parse_headers o [] = o
parse_headers o (line ∷ lines) = parse_headers (put_components o (split_at b':' line)) lines

first_or_undefined : List Str → Value
first_or_undefined [] = Value.undef
first_or_undefined (p ∷ ps) = Value.str p

rest_of : List Str → List Str
rest_of [] = []
rest_of (p ∷ ps) = ps

unfoldable pub body_value : Str → Value
body_value [] = Value.undef
body_value (c ∷ s) = Value.str (c ∷ s)

first_piece : List Str → Str
first_piece [] = []
first_piece (p ∷ ps) = p

-- The headers and the body of a frame.
unfoldable pub parse_parts : Str → Str → Object Value × Value
unfolding parse_headers split_lines split_at first_or_undefined rest_of body_value first_piece
parse_parts head tail =
    let lines = split_lines head in
    (
      put (parse_headers [] (rest_of lines)) (text "command") (first_or_undefined lines),
      body_value (first_piece (split_at 0 tail)),
    )

-- A frame that is no string, or has no blank line, becomes the payload as it is: the error is
-- caught.
unfoldable pub parse : Factory → Value → Message × Factory
unfolding parse_parts split_frame
parse f (Value.str frame) = elim (split_frame frame) [
  | none ↦ new_message f (Value.str frame) []
  | some (head, tail) ↦ let (headers, body) = parse_parts head tail in new_message f body headers
]
parse f frame = new_message f frame []

-- `type === 'string' || type === 'number'`
abbrev pub is_text : Value → Bool
is_text (Value.str s) = true
is_text (Value.num n) = true
is_text Value.nan = true
is_text _ = false

unfoldable pub build_headers : Object Value → Str
build_headers [] = []
build_headers ((name, v) ∷ o) =
    let rest = build_headers o in
    if not (name == text "command") && is_text v
    then 10 ∷ name ++ b':' ∷ to_string v ++ rest
    else rest

-- `body.length`; only strings and arrays have one
body_length : Value → ℕ
body_length (Value.str s) = length s
body_length (Value.array vs) = length (of_values vs)
body_length _ = 0

unfoldable pub content_length : Message → Str
unfolding body_length
content_length m =
    if truthy m.payload
      && ltb 0 (body_length m.payload)
      && not (has m.headers (text "content-length"))
    then 10 ∷ text "content-length" ++ b':' ∷ decimal (body_length m.payload)
    else []

unfoldable pub body_text : Value → Str
body_text v = if truthy v then to_string v else []

-- `headers.command.toUpperCase()` throws on a command that is no string.
unfoldable pub build : Message → Outcome Str
unfolding build_headers content_length body_text
build m = elim (header m (text "command")) [
  | Value.str command ↦ ok (
      to_upper_case command
      ++ (build_headers m.headers
          ++ (content_length m ++ (10 ∷ 10 ∷ body_text m.payload ++ (0 ∷ [])))))
  | _ ↦ throw Value.type_error
]
