-- ===== src/Js/Decimal.antt =====
-- The decimal print of a number, as string concatenation makes it, and how it is read back.
use msgs.Base.{
  ℕ, zero, suc, ◌+◌, ◌*◌, ◌/◌, ◌%◌, ◌-◌, ◌≤◌, ◌<◌, ◌≡◌, refl, ap, sym, ◌∙◌, [], ◌∷◌, arith, ltb,
  if◌then◌else◌, All,
}
use msgs.Js.Text.{Str, text}

-- The last digit goes to the front of what is printed; the fuel is above the number of digits.
print_onto : ℕ → ℕ → Str → Str
print_onto zero n out = out
print_onto (suc f) n out =
    let rest = print_onto f (n / 10) ((b'0' + n % 10) ∷ out) in
    if ltb n 10 then (b'0' + n) ∷ out else rest

-- `'' + n`
unfoldable pub decimal : ℕ → Str
unfolding print_onto
decimal n = print_onto (suc n) n []

-- Reads digits behind the number that was read so far.
read_onto : ℕ → Str → ℕ
read_onto a [] = a
read_onto a (c ∷ s) = read_onto (a * 10 + (c - b'0')) s

read-print_onto : (f n : ℕ) (out : Str) → n < f → read_onto 0 (print_onto f n out) ≡ read_onto n out
unfolding print_onto read_onto
read-print_onto zero n out h = elim h [ ]
read-print_onto (suc f) n out h = ground (arith, read-print_onto f (n / 10) ((b'0' + n % 10) ∷ out))

-- The print determines the number.
pub decimal_injective : (m n : ℕ) → decimal m ≡ decimal n → m ≡ n
unfolding decimal read_onto
decimal_injective m n p =
    sym (read-print_onto (suc m) m [] (omega arith))
    ∙ ap (read_onto 0) p
    ∙ read-print_onto (suc n) n [] (omega arith)

abbrev pub IsDigit : ℕ → Type 0
IsDigit c = (b'0' ≤ c) × (c ≤ b'9')

print_onto-IsDigit : (f n : ℕ) (out : Str) → All IsDigit out → All IsDigit (print_onto f n out)
unfolding print_onto
print_onto-IsDigit zero n out h = h
print_onto-IsDigit (suc f) n out h =
    ground (arith, print_onto-IsDigit f (n / 10) ((b'0' + n % 10) ∷ out))

-- Every unit of a print is a digit.
pub decimal-IsDigit : (n : ℕ) → All IsDigit (decimal n)
unfolding decimal
decimal-IsDigit n = print_onto-IsDigit (suc n) n [] tt

decimal_1024 : decimal 1024 ≡ text "1024"
unfolding decimal
decimal_1024 = refl
