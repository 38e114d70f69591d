-- ===== src/Bus/Names/Keeps.antt =====
-- msgs.js, `alias`: what becomes of the names that are registered already.
use msgs.Bus.Names.{
  Component, Store, alias, bus_at, or_resolve, register, resolve_channel, resolve_handler,
  set_components,
}
use msgs.Base.{
  true, false, ℕ, zero, suc, [], ◌∷◌, ◌≡◌, some, arith, Bool-cases, inl, inr, nat_eq, refl, sym, ap,
  ◌∙◌, length,
}
use msgs.Js.Object.{get, has, put}
use msgs.Js.Effect.{Outcome-cases, ok}
use msgs.Js.Text.{Str, str_eq}

-- Whatever name any bus had, it still has, for the same component.
abbrev pub Keeps : Store → Store → Type 0
Keeps store store' =
    (j : ℕ) (k : Str) (x : Component)
    → get (bus_at store j).components k ≡ some x
    → get (bus_at store' j).components k ≡ some x

alias-registers :
    (n : ℕ) (store store' : Store) (b : ℕ) (name : Str) (x : Component)
    → alias n store b name x ≡ ok store'
    → register store b name x ≡ ok store'
unfolding alias
alias-registers n store store' b name x p =
    elim (Outcome-cases
      (or_resolve (resolve_channel n store b x) (resolve_handler n store b x) x)) [
        | inl (true, q) ↦ rw (q, alias) at p
        | inl (false, q) ↦ absurd (cc (rw (q, alias) at p))
        | inr (inl (e, q)) ↦ absurd (cc (rw (q, alias) at p))
        | inr (inr q) ↦ absurd (cc (rw (q, alias) at p))
      ]

pub length-set_components :
    (names : Store) (b : ℕ) (o : msgs.Js.Object.Object Component)
    → length (set_components names b o) ≡ length names
unfolding set_components
length-set_components [] b o = refl
length-set_components (x ∷ names) zero o = refl
length-set_components (x ∷ names) (suc b) o = ap suc (length-set_components names b o)

length-register :
    (store store' : Store) (b : ℕ) (name : Str) (x : Component)
    → register store b name x ≡ ok store'
    → length store' ≡ length store
unfolding register
length-register store store' b [] x p = absurd (cc p)
length-register store store' b (c ∷ s) x p =
    elim (Bool-cases (has (bus_at store b).components (c ∷ s))) [
      | inl used ↦ absurd (ground (arith, p, used))
      | inr free ↦
          let o = put (bus_at store b).components (c ∷ s) x in
          let e : set_components store b o ≡ store' = ground (arith, p, free) in
          ap length (sym e) ∙ length-set_components store b o
    ]

-- A name more, on the buses that there are.
pub length-alias :
    (n : ℕ) (store store' : Store) (b : ℕ) (name : Str) (x : Component)
    → alias n store b name x ≡ ok store'
    → length store' ≡ length store
length-alias n store store' b name x p =
    length-register store store' b name x (alias-registers n store store' b name x p)
