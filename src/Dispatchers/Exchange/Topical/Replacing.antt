-- ===== src/Dispatchers/Exchange/Topical/Replacing.antt =====
-- exchange.js, the replacements of the topical matcher: what one of them makes of a text, word by word.
use msgs.Base.{
  ℕ, zero, true, false, [], ◌∷◌, ◌++◌, ◌==◌, ◌||◌, ◌≡◌, refl, sym, ap, ◌∙◌, nat_eq, All, inl, inr,
  Bool-cases, eq_iff, append-nil,
}
use msgs.Js.Text.{Str, text}
use msgs.Js.RegExp.{is_syntax, replace_from, starts_with}
use msgs.Dispatchers.Exchange.Topical.Words.{
  Segment, literal, star, Body, end, end_hash, next, next_hash, Subscription, nothing, only_hash,
  body, hash_body, body_text, spelled, IsPlain, IsSegment, IsBody,
}

-- How the segments are spelled in the pattern, and the pattern.
abbrev pub segment_pattern : Segment → Str
segment_pattern (literal s) = s
segment_pattern star = text "[^.]+"

abbrev pub body_pattern : Body → Str
body_pattern = body_text segment_pattern (text "(?:\\..+)?") (text "\\.") (text "\\.(?:.+\\.)?")

abbrev pub subscription_pattern : Subscription → Str
subscription_pattern nothing = []
subscription_pattern only_hash = text "(?:.+)?"
subscription_pattern (body b) = body_pattern b
subscription_pattern (hash_body b) = text "(?:.+\\.)?" ++ body_pattern b

-- No unit is the first one of the needle.
abbrev pub Lacks : ℕ → Str → Type 0
Lacks x = All (λ c. (x == c) ≡ false)

plain_ne : (x c : ℕ) → (is_syntax x || (x == b'#')) ≡ true → IsPlain c → (x == c) ≡ false
plain_ne x c h p = elim (Bool-cases (x == c)) [
  | inl same ↦
      let e : x ≡ c = (eq_iff x c).0 same in
      let q : (is_syntax x || (x == b'#')) ≡ false = rw e (rw (p.0, p.1) refl) in cc
  | inr other ↦ other
]

pub plain-Lacks :
    (x : ℕ) (s : Str) → (is_syntax x || (x == b'#')) ≡ true → All IsPlain s → Lacks x s
plain-Lacks x [] h p = tt
plain-Lacks x (c ∷ s) h p = (plain_ne x c h p.0, plain-Lacks x s h p.1)

pub replace-Lacks :
    (x : ℕ) (needle by s rest : Str)
    → Lacks x s
    → replace_from (x ∷ needle) by zero (s ++ rest) ≡ s ++ replace_from (x ∷ needle) by zero rest
replace-Lacks x needle by [] rest h = refl
replace-Lacks x needle by (c ∷ s) rest h =
    rw (h.0, replace_from) (ap (λ r. c ∷ r) (replace-Lacks x needle by s rest h.1))

-- A text that does not begin with `#`.
abbrev pub NotHash : Str → Type 0
NotHash s = starts_with (text "#") s ≡ false

-- One replacement, of `x ∷ needle` by `by`, on the texts of bodies: what it makes of a segment and of
-- what stands behind one.
module _ (x : ℕ) (needle by : Str) (f f' : Segment → Str)
    (at_hash dot inner at_hash' dot' inner' : Str) where
  abbrev pub replaced : Str → Str
  replaced = replace_from (x ∷ needle) by zero

  -- What is replaced behind a segment depends at most on whether a `#` comes next.
  pub record IsStep : Type 0 where
    pub starts : (w : Segment) → IsSegment w → (rest : Str) → NotHash (f w ++ rest)
    pub on_segment :
        (w : Segment) → IsSegment w → (rest : Str) → replaced (f w ++ rest) ≡ f' w ++ replaced rest
    pub on_hash : replaced at_hash ≡ at_hash'
    pub on_dot : (rest : Str) → NotHash rest → replaced (dot ++ rest) ≡ dot' ++ replaced rest
    pub on_inner : (rest : Str) → NotHash rest → replaced (inner ++ rest) ≡ inner' ++ replaced rest

  module _ (step : IsStep) where
    pub body-NotHash : (b : Body) → IsBody b → NotHash (body_text f at_hash dot inner b)
    body-NotHash (end w) v = rw append-nil at (step.starts w v [])
    body-NotHash (end_hash w) v = step.starts w v _
    body-NotHash (next w b) v = step.starts w v.0 _
    body-NotHash (next_hash w b) v = step.starts w v.0 _

    pub replace_body :
        (b : Body)
        → IsBody b
        → replaced (body_text f at_hash dot inner b) ≡ body_text f' at_hash' dot' inner' b
    replace_body (end w) v =
        sym (ap replaced (append-nil (f w))) ∙ step.on_segment w v [] ∙ append-nil (f' w)
    replace_body (end_hash w) v = step.on_segment w v at_hash ∙ ap (λ s. f' w ++ s) step.on_hash
    replace_body (next w b) v =
        step.on_segment w v.0 _
        ∙ ap (λ s. f' w ++ s)
            (step.on_dot _ (body-NotHash b v.1) ∙ ap (λ s. dot' ++ s) (replace_body b v.1))
    replace_body (next_hash w b) v =
        step.on_segment w v.0 _
        ∙ ap (λ s. f' w ++ s)
            (step.on_inner _ (body-NotHash b v.1) ∙ ap (λ s. inner' ++ s) (replace_body b v.1))

-- What each replacement does to a segment that it does not change.
pub segment-Lacks :
    (x : ℕ) (w : Segment)
    → (is_syntax x || (x == b'#')) ≡ true
    → IsSegment w
    → Lacks x (text "[^.]+")
    → Lacks x (segment_pattern w)
segment-Lacks x (literal s) h v l = plain-Lacks x s h v.1
segment-Lacks x star h v l = l

pub spelled-NotHash : (w : Segment) → IsSegment w → (rest : Str) → NotHash (spelled w ++ rest)
spelled-NotHash (literal []) v rest = absurd v.0
spelled-NotHash (literal (c ∷ s)) v rest = rw (plain_ne b'#' c refl v.1.0) refl
spelled-NotHash star v rest = refl

pub pattern-NotHash :
    (w : Segment) → IsSegment w → (rest : Str) → NotHash (segment_pattern w ++ rest)
pattern-NotHash (literal []) v rest = absurd v.0
pattern-NotHash (literal (c ∷ s)) v rest = rw (plain_ne b'#' c refl v.1.0) refl
pattern-NotHash star v rest = refl
