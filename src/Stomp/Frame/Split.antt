-- ===== src/Stomp/Frame/Split.antt =====
-- How the splits of `parse` take apart what `build` has put together.
use msgs.Stomp.Frame.{
  line_end, double_end, onto_first, split_frame, join_with, split_at, split_lines,
}
use msgs.Js.Text.{Str}
use msgs.Base.{
  All, List, [], refl, some, ◌++◌, ◌∷◌, ◌≡◌, ◌≢◌, arith, none, ℕ, Bool-cases, ap, drop, eqb, inl,
  inr, ◌∙◌, eqb_iff, sym,
}

-- No line feed and no carriage return.
abbrev pub IsInline : Str → Type 0
IsInline = All (λ c. (c ≢ 10) × (c ≢ 13))

-- Lines, each but the first behind a line feed.
abbrev pub lines_text : Str → List Str → Str
lines_text l [] = l
lines_text l (k ∷ ks) = l ++ 10 ∷ lines_text k ks

-- A line that is not empty and has no line end.
abbrev pub IsLine : Str → Type 0
IsLine [] = ⊥
IsLine (c ∷ s) = IsInline (c ∷ s)

line_end-none : (c : ℕ) (s : Str) → c ≢ 10 → c ≢ 13 → line_end (c ∷ s) ≡ none
unfolding line_end
line_end-none c [] p q = ground arith
line_end-none c (d ∷ s) p q = ground arith

double_end-none : (c : ℕ) (s : Str) → c ≢ 10 → c ≢ 13 → double_end (c ∷ s) ≡ none
unfolding double_end
double_end-none c s p q = rw (line_end-none c s p q, double_end) refl

line_end-lf : (s : Str) → line_end (10 ∷ s) ≡ some 1
unfolding line_end
line_end-lf [] = refl
line_end-lf (c ∷ s) = refl

double_end-lf : (c : ℕ) (s : Str) → c ≢ 10 → c ≢ 13 → double_end (10 ∷ c ∷ s) ≡ none
unfolding double_end
double_end-lf c s p q = ground (arith, line_end-none c s p q)

split_step :
    (c : ℕ) (s h b : Str)
    → double_end (c ∷ s) ≡ none
    → split_frame s ≡ some (h, b)
    → split_frame (c ∷ s) ≡ some (c ∷ h, b)
unfolding split_frame
split_step c s h b p q = ground (arith, p, q)

double_end-lf-lf : (s : Str) → double_end (10 ∷ 10 ∷ s) ≡ some 2
unfolding double_end
double_end-lf-lf s = ground (arith, line_end-lf s)

split_found :
    (c : ℕ) (s : Str) (n : ℕ)
    → double_end (c ∷ s) ≡ some n
    → split_frame (c ∷ s) ≡ some ([], drop n (c ∷ s))
unfolding split_frame
split_found c s n p = rw (p, split_frame) refl

-- A frame splits at its first blank line.
pub split_frame-lines :
    (l : Str) (ks : List Str) (body : Str)
    → IsInline l
    → All IsLine ks
    → split_frame (lines_text l ks ++ 10 ∷ 10 ∷ body) ≡ some (lines_text l ks, body)
split_frame-lines [] [] body h hs = split_found 10 (10 ∷ body) 2 (double_end-lf-lf body)
split_frame-lines [] ([] ∷ ks) body h (k, hs) = absurd k
split_frame-lines [] ((c ∷ k) ∷ []) body h (((p, q), k'), hs) =
    split_step 10 _ _ body (double_end-lf c _ p q)
      (split_frame-lines (c ∷ k) [] body ((p, q), k') hs)
split_frame-lines [] ((c ∷ k) ∷ j ∷ ks) body h (((p, q), k'), hs) =
    split_step 10 _ _ body (double_end-lf c _ p q)
      (split_frame-lines (c ∷ k) (j ∷ ks) body ((p, q), k') hs)
split_frame-lines (c ∷ l) [] body ((p, q), h) hs =
    split_step c _ _ body (double_end-none c _ p q) (split_frame-lines l [] body h hs)
split_frame-lines (c ∷ l) (k ∷ ks) body ((p, q), h) hs =
    split_step c _ _ body (double_end-none c _ p q) (split_frame-lines l (k ∷ ks) body h hs)

split_lines_step :
    (c : ℕ) (s : Str) (p : Str) (ps : List Str)
    → c ≢ 10
    → c ≢ 13
    → split_lines s ≡ p ∷ ps
    → split_lines (c ∷ s) ≡ (c ∷ p) ∷ ps
unfolding split_lines
split_lines_step c [] p ps m n e = ground (arith, e)
split_lines_step c (d ∷ s) p ps m n e = ground (arith, e)

split_lines-lf : (s : Str) → split_lines (10 ∷ s) ≡ [] ∷ split_lines s
unfolding split_lines
split_lines-lf [] = refl
split_lines-lf (c ∷ s) = refl

-- The lines come back.
pub split_lines-lines :
    (l : Str) (ks : List Str) → IsInline l → All IsLine ks → split_lines (lines_text l ks) ≡ l ∷ ks
split_lines-lines [] [] h hs = unfold split_lines in refl
split_lines-lines [] ([] ∷ ks) h (k, hs) = absurd k
split_lines-lines [] ((c ∷ k) ∷ ks) h (k', hs) =
    split_lines-lf (lines_text (c ∷ k) ks) ∙ ap (◌∷◌ []) (split_lines-lines (c ∷ k) ks k' hs)
split_lines-lines (c ∷ l) [] ((p, q), h) hs =
    split_lines_step c l l [] p q (split_lines-lines l [] h hs)
split_lines-lines (c ∷ l) (k ∷ ks) ((p, q), h) hs =
    split_lines_step c _ l (k ∷ ks) p q (split_lines-lines l (k ∷ ks) h hs)

-- `name:value` splits at its first colon, and the pieces of the value join again.
abbrev pub HasNone : ℕ → Str → Type 0
HasNone sep = All (λ c. c ≢ sep)

pub split_at-first :
    (sep : ℕ) (name value : Str)
    → HasNone sep name
    → split_at sep (name ++ sep ∷ value) ≡ name ∷ split_at sep value
unfolding split_at
split_at-first sep [] value h = ground arith
split_at-first sep (c ∷ name) value (p, h) = ground (arith, split_at-first sep name value h)

split_at-cons : (sep : ℕ) (s : Str) → (p : Str) × (ps : List Str) × (split_at sep s ≡ p ∷ ps)
unfolding split_at
split_at-cons sep [] = ([], [], refl)
split_at-cons sep (c ∷ s) =
    let (p, ps, e) = split_at-cons sep s in
    elim (Bool-cases (eqb c sep)) [
      | inl t ↦ ([], p ∷ ps, ground (arith, e, t))
      | inr f ↦ (c ∷ p, ps, ground (arith, e, f))
    ]

join-onto_first :
    (sep c : ℕ) (p : Str) (ps : List Str)
    → join_with sep (onto_first c (p ∷ ps)) ≡ c ∷ join_with sep (p ∷ ps)
unfolding join_with onto_first
join-onto_first sep c p [] = refl
join-onto_first sep c p (q ∷ qs) = refl

-- Splitting and joining gives the text back.
pub join-split : (sep : ℕ) (s : Str) → join_with sep (split_at sep s) ≡ s
unfolding join_with split_at
join-split sep [] = refl
join-split sep (c ∷ s) =
    let (p, ps, e) = split_at-cons sep s in
    elim (Bool-cases (eqb c sep)) [
      | inl t ↦
          rw (t, e)
            (ap (◌∷◌ sep) (rw e at (join-split sep s))
              ∙ ap (λ x. x ∷ s) (sym ((eqb_iff c sep).0 t)))
      | inr f ↦ rw (f, e) (join-onto_first sep c p ps ∙ ap (◌∷◌ c) (rw e at (join-split sep s)))
    ]
