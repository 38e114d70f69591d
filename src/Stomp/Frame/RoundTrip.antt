-- ===== src/Stomp/Frame/RoundTrip.antt =====
-- channels/translators/stomp.js: `parse` of what `build` writes.

use msgs.Stomp.Frame.{
  put_components, body_value, body_length, body_text, build_headers, content_length, is_text,
  parse_headers, build, parse, parse_parts, split_at,
}
use msgs.Base.{
  All, All-append, Bool-cases, List, [], ap, append-nil, append_assoc, arith, if◌then◌else◌, inl,
  inr, ltb, nat_eq, not, refl, sym, ◌&&◌, ◌++◌, ◌==◌, ◌∙◌, ◌∷◌, ◌≡◌,
}
use msgs.Js.Value.{Value, to_string, truthy}
use msgs.Js.Object.{Object, assign, has, put}
use msgs.Js.Decimal.{decimal, IsDigit, decimal-IsDigit}
use msgs.Stomp.Frame.Split.{
  HasNone, IsInline, IsLine, lines_text, join-split, split_at-first, split_frame-lines,
  split_lines-lines,
}
use msgs.Message.{Message, Factory, header, new_message}
use msgs.Js.Text.{Str, str_eq, text, to_upper_case}
use msgs.Js.Effect.{ok}

-- The header lines that a frame carries: name and value.
unfoldable pub text_fields : Object Value → List (Str × Str)
text_fields [] = []
text_fields ((name, v) ∷ o) =
    let rest = text_fields o in
    if not (name == text "command") && is_text v then (name, to_string v) ∷ rest else rest

unfoldable pub length_fields : Message → List (Str × Str)
unfolding body_length
length_fields m =
    if truthy m.payload
      && ltb 0 (body_length m.payload)
      && not (has m.headers (text "content-length"))
    then (text "content-length", decimal (body_length m.payload)) ∷ []
    else []

unfoldable pub frame_fields : Message → List (Str × Str)
frame_fields m = text_fields m.headers ++ length_fields m

abbrev line_of : Str × Str → Str
line_of (name, value) = name ++ b':' ∷ value

abbrev lines_of : List (Str × Str) → List Str
lines_of [] = []
lines_of (f ∷ fs) = line_of f ∷ lines_of fs

-- The fields as headers that a parse declares.
abbrev pub as_headers : List (Str × Str) → Object Value
as_headers [] = []
as_headers ((name, value) ∷ fs) = (name, Value.str value) ∷ as_headers fs

-- Each line behind a line feed.
abbrev newlines : List Str → Str
newlines [] = []
newlines (k ∷ ks) = 10 ∷ k ++ newlines ks

newlines-append : (ks js : List Str) → newlines (ks ++ js) ≡ newlines ks ++ newlines js
newlines-append [] js = refl
newlines-append (k ∷ ks) js =
    ap (λ s. 10 ∷ s)
      (ap (◌++◌ k) (newlines-append ks js) ∙ sym (append_assoc k (newlines ks) (newlines js)))

lines_of-append : (fs gs : List (Str × Str)) → lines_of (fs ++ gs) ≡ lines_of fs ++ lines_of gs
lines_of-append [] gs = refl
lines_of-append (f ∷ fs) gs = ap (◌∷◌ (line_of f)) (lines_of-append fs gs)

lines_text-newlines : (l : Str) (ks : List Str) → lines_text l ks ≡ l ++ newlines ks
lines_text-newlines l [] = sym (append-nil l)
lines_text-newlines l (k ∷ ks) = ap (λ s. l ++ 10 ∷ s) (lines_text-newlines k ks)

build_headers-newlines : (o : Object Value) → build_headers o ≡ newlines (lines_of (text_fields o))
unfolding build_headers text_fields
build_headers-newlines [] = refl
build_headers-newlines ((name, v) ∷ o) =
    elim (Bool-cases (not (name == text "command") && is_text v)) [
      | inl t ↦ rw (t, build_headers-newlines o) refl
      | inr f ↦ rw (f, build_headers-newlines o) refl
    ]

content_length-newlines : (m : Message) → content_length m ≡ newlines (lines_of (length_fields m))
unfolding content_length length_fields
content_length-newlines m =
    elim (Bool-cases (
      truthy m.payload
      && ltb 0 (body_length m.payload)
      && not (has m.headers (text "content-length")))) [
        | inl t ↦ rw t (
            sym
              (append-nil (10 ∷ line_of (text "content-length", decimal (body_length m.payload)))))
        | inr f ↦ rw f refl
      ]

-- A field that is written and read back as it is.
abbrev pub FieldFits : Str × Str → Type 0
FieldFits (name, value) = IsInline name × HasNone b':' name × IsInline value

line_of-IsLine : (f : Str × Str) → FieldFits f → IsLine (line_of f)
line_of-IsLine ([], value) (i, n, v) = (omega arith, v)
line_of-IsLine (c ∷ name, value) ((i, is), n, v) =
    (i, All-append _ name (b':' ∷ value) is (omega arith, v))

put_components-line :
    (o : Object Value) (name value : Str)
    → HasNone b':' name
    → put_components o (split_at b':' (name ++ b':' ∷ value)) ≡ put o name (Value.str value)
unfolding put_components
put_components-line o name value n =
    ap (put_components o) (split_at-first b':' name value n)
    ∙ ap (λ s. put o name (Value.str s)) (join-split b':' value)

parse_headers-lines :
    (o : Object Value) (fs : List (Str × Str))
    → All FieldFits fs
    → parse_headers o (lines_of fs) ≡ assign o (as_headers fs)
unfolding parse_headers assign
parse_headers-lines o [] h = refl
parse_headers-lines o ((name, value) ∷ fs) ((i, n, v), h) =
    ap (λ o'. parse_headers o' (lines_of fs)) (put_components-line o name value n)
    ∙ parse_headers-lines (put o name (Value.str value)) fs h

lines_of-IsLine : (fs : List (Str × Str)) → All FieldFits fs → All IsLine (lines_of fs)
lines_of-IsLine [] h = tt
lines_of-IsLine (f ∷ fs) (p, h) = (line_of-IsLine f p, lines_of-IsLine fs h)

pub digit-IsInline : (s : Str) → All IsDigit s → IsInline s
digit-IsInline [] h = tt
digit-IsInline (c ∷ s) (p, h) = (omega arith, digit-IsInline s h)

length_fields-fit : (m : Message) → All FieldFits (length_fields m)
unfolding length_fields
length_fields-fit m =
    elim (Bool-cases (
      truthy m.payload
      && ltb 0 (body_length m.payload)
      && not (has m.headers (text "content-length")))) [
        | inl t ↦ rw t (
          (omega arith, omega arith, digit-IsInline _ (decimal-IsDigit (body_length m.payload))),
          tt,
        )
        | inr f ↦ rw f tt
      ]

-- What a frame is made of.
build-lines :
    (m : Message) (command : Str)
    → header m (text "command") ≡ Value.str command
    → build m
      ≡ ok (
          lines_text (to_upper_case command) (lines_of (frame_fields m))
          ++ 10 ∷ 10 ∷ (body_text m.payload ++ 0 ∷ []))
unfolding build frame_fields
build-lines m command p =
    rw (p, build)
      (rw
        (
          build_headers-newlines m.headers,
          content_length-newlines m,
          lines_text-newlines (to_upper_case command) (lines_of (frame_fields m)),
          lines_of-append (text_fields m.headers) (length_fields m),
          newlines-append (lines_of (text_fields m.headers)) (lines_of (length_fields m)),
        )
        (ap ok (simp append_assoc)))

parse_parts-lines :
    (command : Str) (fs : List (Str × Str)) (body : Str)
    → IsInline command
    → All FieldFits fs
    → HasNone 0 body
    → parse_parts (lines_text command (lines_of fs)) (body ++ 0 ∷ [])
      ≡ (put (assign [] (as_headers fs)) (text "command") (Value.str command), body_value body)
unfolding parse_parts
parse_parts-lines command fs body i h b =
    rw
      (
        split_lines-lines command (lines_of fs) i (lines_of-IsLine fs h),
        split_at-first 0 body [] b,
        parse_headers-lines [] fs h,
      )
      refl

parse-lines :
    (f : Factory) (command : Str) (fs : List (Str × Str)) (body : Str)
    → IsInline command
    → All FieldFits fs
    → HasNone 0 body
    → parse f (Value.str (lines_text command (lines_of fs) ++ 10 ∷ 10 ∷ (body ++ 0 ∷ [])))
      ≡ new_message f
          (body_value body)
          (put (assign [] (as_headers fs)) (text "command") (Value.str command))
unfolding parse
parse-lines f command fs body i h b =
    rw (split_frame-lines command (lines_of fs) (body ++ 0 ∷ []) i (lines_of-IsLine fs h), parse)
      (ap (λ (p : Object Value × Value). new_message f p.1 p.0)
        (parse_parts-lines command fs body i h b))

-- What `build` asks of a message, and what it only assumes (its comments): no line ends in the
-- command, in names and in values, no colon in names, and no NULL in the body.
pub record IsFrameable (m : Message) (command : Str) : Type 0 where
  pub commanded : header m (text "command") ≡ Value.str command
  pub command_inline : IsInline (to_upper_case command)
  pub fields_fit : All FieldFits (text_fields m.headers)
  pub body_fits : HasNone 0 (body_text m.payload)

pub parse-build :
    (f : Factory) (m : Message) (command : Str)
    → IsFrameable m command
    → (frame : Str) × (build m ≡ ok frame)
      × (parse f (Value.str frame)
          ≡ new_message f (body_value (body_text m.payload)) (
              put
                (assign [] (as_headers (frame_fields m)))
                (text "command")
                (Value.str (to_upper_case command))))
unfolding frame_fields
parse-build f m command w = (
  lines_text (to_upper_case command) (lines_of (frame_fields m))
      ++ 10 ∷ 10 ∷ (body_text m.payload ++ 0 ∷ []),
  build-lines m command w.commanded,
  parse-lines f (to_upper_case command) (frame_fields m) (body_text m.payload) w.command_inline
      (All-append FieldFits (text_fields m.headers) (length_fields m) w.fields_fit
        (length_fields-fit m))
      w.body_fits,
)
