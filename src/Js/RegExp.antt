-- ===== src/Js/RegExp.antt =====
-- Regular expressions as strings are tested by them, `s.replace(re, by)` of a global expression that
-- spells one text, and `new RegExp('^' + pattern + '$')` for the patterns of units, `.`, `[^c]`,
-- escaped units, `+` behind one of these, and groups `(?:…)` with or without a `?`.
use msgs.Base.{
  ℕ, zero, suc, ◌-◌, Bool, true, false, not, List, [], ◌∷◌, ◌++◌, Option, none, some, ◌==◌, ◌&&◌,
  ◌||◌, ◌≡◌, refl, if◌then◌else◌, nat_eq, length,
}
use msgs.Js.Text.{Str, text}

abbrev pub starts_with : Str → Str → Bool
starts_with [] s = true
starts_with (n ∷ needle) [] = false
starts_with (n ∷ needle) (c ∷ s) = n == c && starts_with needle s

-- The text behind an occurrence of the needle: the units that are skipped belong to one.
abbrev pub replace_from : Str → Str → ℕ → Str → Str
replace_from needle by skip [] = []
replace_from needle by (suc skip) (c ∷ s) = replace_from needle by skip s
replace_from needle by zero (c ∷ s) = elim (starts_with needle (c ∷ s)) [
  | true ↦ by ++ replace_from needle by (length needle - 1) s
  | false ↦ c ∷ replace_from needle by zero s
]

-- `s.replace(/needle/g, by)`, for a needle that is not empty and a text without `$`
unfoldable pub replace_all : Str → Str → Str → Str
replace_all needle by s = replace_from needle by zero s

-- What one unit is compared with.
pub data Units : Type 0 where
  exactly : ℕ → Units
  any : Units
  any_but : ℕ → Units

mutual
  pub data Atom : Type 0 where
    one many : Units → Atom
    group maybe : Sequence → Atom

  -- Atoms in a row; the last one is on the outside.
  pub data Sequence : Type 0 where
    start : Sequence
    then_atom : Sequence → Atom → Sequence

-- `.` matches no line terminator.
abbrev pub is_line_terminator : ℕ → Bool
is_line_terminator c = c == 10 || c == 13 || c == 0x2028 || c == 0x2029

abbrev pub fits : Units → ℕ → Bool
fits (exactly c) x = c == x
fits any x = not (is_line_terminator x)
fits (any_but c) x = not (c == x)

abbrev pub test_one : Units → (Str → Bool) → Str → Bool
test_one u k [] = false
test_one u k (x ∷ s) = fits u x && k s

abbrev pub test_many : Units → (Str → Bool) → Str → Bool
test_many u k [] = false
test_many u k (x ∷ s) = fits u x && (k s || test_many u k s)

-- Whether a sequence matches at the front of a string so that the rest passes a test.
unfoldable mutual
  pub test_atom : Atom → (Str → Bool) → Str → Bool
  test_atom (one u) k = test_one u k
  test_atom (many u) k = test_many u k
  test_atom (group rs) k = test_sequence rs k
  test_atom (maybe rs) k = λ s. test_sequence rs k s || k s

  pub test_sequence : Sequence → (Str → Bool) → Str → Bool
  test_sequence start k = k
  test_sequence (then_atom rs r) k = test_sequence rs (test_atom r k)

abbrev pub is_empty : Str → Bool
is_empty [] = true
is_empty (c ∷ s) = false

-- `^` and `$` around a sequence.
unfoldable pub full_match : Sequence → Str → Bool
unfolding test_sequence
full_match rs = test_sequence rs is_empty

-- Where the reader of a pattern stands: what it read of an escape, a `(?:` or a class.
pub data Mode : Type 0 where
  between escaped opening opening_group class_open class_negated : Mode
  class_of : ℕ → Mode

pub record Reader : Type 0 where
  pub mode : Mode
  pub current : Sequence
  pub outer : List Sequence

-- The units that stand for something else than themselves.
abbrev pub is_syntax : ℕ → Bool
is_syntax c =
    c == b'^'
    || c == b'$'
    || c == b'*'
    || c == b'+'
    || c == b'?'
    || c == b'('
    || c == b')'
    || c == b'['
    || c == b']'
    || c == b'{'
    || c == b'}'
    || c == b'|'
    || c == b'.'
    || c == 92

abbrev pub read_atom : Reader → Atom → Option Reader
read_atom r a = some (record r { mode = between; current = then_atom r.current a })

abbrev pub go_to : Reader → Mode → Option Reader
go_to r m = some (record r { mode = m })

abbrev pub repeated : Sequence → Option Sequence
repeated (then_atom rs (one u)) = some (then_atom rs (many u))
repeated _ = none

abbrev pub optional : Sequence → Option Sequence
optional (then_atom rs (one u)) = some (then_atom rs (maybe (then_atom start (one u))))
optional (then_atom rs (group g)) = some (then_atom rs (maybe g))
optional _ = none

abbrev pub with_current : Reader → Option Sequence → Option Reader
with_current r none = none
with_current r (some rs) = some (record r { current = rs })

abbrev pub close_group : Reader → List Sequence → Option Reader
close_group r [] = none
close_group r (rs ∷ outer) =
    some (record { mode = between; current = then_atom rs (group r.current); outer = outer })

-- A unit between atoms.
abbrev pub read_between : Reader → ℕ → Option Reader
read_between r c =
    if is_syntax c
    then (if c == 92
        then go_to r escaped
        else if c == b'.'
        then read_atom r (one any)
        else if c == b'['
        then go_to r class_open
        else if c == b'('
        then go_to r opening
        else if c == b')'
        then close_group r r.outer
        else if c == b'+'
        then with_current r (repeated r.current)
        else if c == b'?'
        then with_current r (optional r.current)
        else none)
    else read_atom r (one (exactly c))

abbrev pub read_unit : Mode → Reader → ℕ → Option Reader
read_unit between r c = read_between r c
read_unit escaped r c = if is_syntax c then read_atom r (one (exactly c)) else none
read_unit opening r c = if c == b'?' then go_to r opening_group else none
read_unit opening_group r c =
    if c == b':'
    then some (record { mode = between; current = start; outer = r.current ∷ r.outer })
    else none
read_unit class_open r c = if c == b'^' then go_to r class_negated else none
read_unit class_negated r c = if c == b']' || c == 92 then none else go_to r (class_of c)
read_unit (class_of d) r c = if c == b']' then read_atom r (one (any_but d)) else none

unfoldable pub read_units : Option Reader → Str → Option Reader
read_units none s = none
read_units (some r) [] = some r
read_units (some r) (c ∷ s) = read_units (read_unit r.mode r c) s

abbrev pub finished : Option Reader → Option Sequence
finished none = none
finished (some r) = at_end r.mode r.outer r.current
  where
    at_end : Mode → List Sequence → Sequence → Option Sequence
    at_end between [] rs = some rs
    at_end _ _ rs = none

abbrev pub new_reader : Reader
new_reader = record { mode = between; current = start; outer = [] }

-- The sequence that a pattern spells; none for a pattern with other syntax, or with none.
unfoldable pub parse_pattern : Str → Option Sequence
unfolding read_units
parse_pattern pattern = finished (read_units (some new_reader) pattern)

optional_word :
    parse_pattern (text "a(?:\\..+)?")
    ≡ some (
        then_atom
          (then_atom start (one (exactly b'a')))
          (maybe (then_atom (then_atom start (one (exactly b'.'))) (many any))))
unfolding parse_pattern
optional_word = refl
