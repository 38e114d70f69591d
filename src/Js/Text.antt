-- ===== src/Js/Text.antt =====
-- Strings: a JavaScript string is a sequence of 16-bit code units.
use Prim.Native.Char.{code}
use Prim.Native.String.{String}
use msgs.Base.{Eq, nat_eq, list_eq, ℕ, ◌-◌, ◌≡◌, refl, List, [], ◌∷◌, leb, ◌&&◌, if◌then◌else◌, map}

abbrev pub Str : Type 0
Str = List ℕ

-- `===` on strings.
instance abbrev pub str_eq : Eq Str
str_eq = list_eq

-- A literal of the source, all of which are ASCII.
abbrev pub text : String → Str
text String.[] = []
text (String.◌∷◌ c s) = code c ∷ text s

upper_unit : ℕ → ℕ
upper_unit c = if leb b'a' c && leb c b'z' then c - 32 else c

-- `toUpperCase`, on the ASCII letters; other units stay.
unfoldable pub to_upper_case : Str → Str
unfolding upper_unit
to_upper_case = map upper_unit

to_upper_case-connect : to_upper_case (text "conNect-1") ≡ text "CONNECT-1"
unfolding to_upper_case
to_upper_case-connect = refl
