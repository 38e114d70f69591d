-- ===== src/Message/Ids.antt =====
-- The ids that buses give to their messages.
use msgs.Base.{All, [], ap₂, arith, refl, ℕ, ◌++◌, ◌∷◌, ◌≡◌, ◌≢◌}
use msgs.Js.Decimal.{IsDigit, decimal, decimal-IsDigit, decimal_injective}
use msgs.Message.{id_text}
use msgs.Js.Text.{Str}

-- No dash.
abbrev IsUndashed : Str → Type 0
IsUndashed = All (λ c. c ≢ b'-')

digits-IsUndashed : (s : Str) → All IsDigit s → IsUndashed s
digits-IsUndashed [] h = tt
digits-IsUndashed (c ∷ s) (p, h) = (omega arith, digits-IsUndashed s h)

-- A text splits at its first dash in one way.
split_unique :
    (a b x y : Str)
    → IsUndashed a
    → IsUndashed b
    → (a ++ b'-' ∷ x) ≡ (b ++ b'-' ∷ y)
    → (a ≡ b) × (x ≡ y)
split_unique [] [] x y h k p = (refl, cc)
split_unique [] (c ∷ b) x y h (k, ks) p = absurd (k (cc))
split_unique (c ∷ a) [] x y (h, hs) k p = absurd (h (cc))
split_unique (c ∷ a) (d ∷ b) x y (h, hs) (k, ks) p =
    let (q, r) = split_unique a b x y hs ks (cc) in (ap₂ ◌∷◌ (cc) q, r)

-- Two generated ids are the same text only if their bus numbers are the same and their message
-- numbers are.
pub id_text_injective :
    (bus bus' n n' : ℕ) → id_text bus n ≡ id_text bus' n' → (bus ≡ bus') × (n ≡ n')
unfolding id_text
id_text_injective bus bus' n n' p =
    let (q, r) =
      split_unique (decimal bus) (decimal bus') (decimal n) (decimal n')
        (digits-IsUndashed (decimal bus) (decimal-IsDigit bus))
        (digits-IsUndashed (decimal bus') (decimal-IsDigit bus')) p in
    (decimal_injective bus bus' q, decimal_injective n n' r)
