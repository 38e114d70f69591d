-- ===== src/Bus/Names/Inheritance.antt =====
-- msgs.js, `alias` and `resolveChannel`: names along the parents of a bus.

use msgs.Bus.Names.{
  register, or_resolve, set_components, alias, resolve_component, resolve_in_parent, Component,
  Channel, Store, bus_at, key_of, look_up, parse_name, resolve_channel, set_components, topic_of,
  with_topic, alias, or_resolve, register, channel, named, without_topic,
}
use msgs.Base.{
  ◌≤◌, none, some, ℕ, zero, suc, ◌≡◌, ◌≢◌, ◌++◌, ◌∷◌, [], refl, All, arith, ap, ◌∙◌, Bool-cases,
  inl, inr, nat_eq, eq_refl, length, ◌<◌,
}
use msgs.Js.Object.{Object, get, has, put}
use msgs.Js.Object.Laws.{get-put}
use msgs.Js.Effect.{ok}
use msgs.Js.Text.{Str, str_eq}

-- The bus `b` gets the name from the bus `a`, which is `depth` generations above, unless `a` does not
-- have it: no bus from `b` up to `a` has it.
pub data Inherits (store : Store) (name : Str) : ℕ → ℕ → ℕ → Type 0 where
  here : {b : ℕ} → Inherits store name b b 0
  above :
      {b p a depth : ℕ}
      → get (bus_at store b).components name ≡ none
      → (bus_at store b).parent ≡ some p
      → Inherits store name p a depth
      → Inherits store name b a (suc depth)

-- A name without `!`.
abbrev pub IsPlain : Str → Type 0
IsPlain = All (λ c. c ≢ b'!')

-- `name!topic`, or the name alone where there is no topic
abbrev pub address : Str → Str → Str
address name [] = name
address name (c ∷ s) = name ++ b'!' ∷ c ∷ s

parse_plain : (name : Str) → IsPlain name → parse_name name ≡ (name, [])
unfolding parse_name
parse_plain [] h = refl
parse_plain (c ∷ s) (p, h) = ground (arith, parse_plain s h)

parse_behind : (name topic : Str) → IsPlain name → parse_name (name ++ b'!' ∷ topic) ≡ (name, topic)
unfolding parse_name
parse_behind [] topic h = refl
parse_behind (c ∷ s) topic (p, h) = ground (arith, parse_behind s topic h)

parse-address : (name topic : Str) → IsPlain name → parse_name (address name topic) ≡ (name, topic)
parse-address name [] h = parse_plain name h
parse-address name (c ∷ s) h = parse_behind name (c ∷ s) h

module _ (n : ℕ) (store : Store) (b : ℕ) (name topic : Str) (plain : IsPlain name) where
  pub resolve_own :
      (c : Channel)
      → get (bus_at store b).components name ≡ some (channel c)
      → resolve_channel (suc (suc n)) store b (named (address name topic))
        ≡ with_topic topic (ok (some c))
  unfolding resolve_channel key_of topic_of look_up resolve_component
  resolve_own c p =
      rw (parse-address name topic plain, resolve_channel, look_up, key_of, topic_of, p) refl

  pub resolve_nowhere :
      get (bus_at store b).components name ≡ none
      → (bus_at store b).parent ≡ none
      → resolve_channel (suc n) store b (named (address name topic)) ≡ with_topic topic (ok none)
  unfolding resolve_channel key_of topic_of look_up resolve_in_parent
  resolve_nowhere q r =
      rw (parse-address name topic plain, resolve_channel, look_up, key_of, topic_of, q, r) refl

  pub resolve_above :
      (p : ℕ)
      → get (bus_at store b).components name ≡ none
      → (bus_at store b).parent ≡ some p
      → resolve_channel (suc n) store b (named (address name topic))
        ≡ with_topic topic (resolve_channel n store p (named name))
  unfolding resolve_channel key_of topic_of look_up resolve_in_parent without_topic
  resolve_above p q r =
      rw (parse-address name topic plain, resolve_channel, look_up, key_of, topic_of, q, r)
        (ap (λ (x : Str × Str). with_topic topic (resolve_channel n store p (named x.0)))
          (parse-address name topic plain))

-- A bus finds the channel that the nearest of it and its ancestors has under a plain name, and
-- `name!topic` is that channel, topicized. Two calls more than there are generations are fuel enough.
pub resolve_inherited :
    (store : Store) (name topic : Str) (c : Channel) (b a depth n : ℕ)
    → IsPlain name
    → Inherits store name b a depth
    → get (bus_at store a).components name ≡ some (channel c)
    → depth ≤ n
    → resolve_channel (suc (suc n)) store b (named (address name topic))
      ≡ with_topic topic (ok (some c))
resolve_inherited store name topic c b a depth n plain here p le =
    resolve_own n store b name topic plain c p
resolve_inherited store name topic c b a depth zero plain (above q r i) p le = absurd (omega arith)
resolve_inherited store name topic c b a (suc depth) (suc n) plain (above {p = up} q r i) p le =
    resolve_above (suc (suc n)) store b name topic plain up q r
    ∙ ap (with_topic topic) (
        resolve_inherited store name [] c up a depth n plain i p (omega arith)
        ∙ unfold with_topic in refl)

bus_at-set_components :
    (store : Store) (b : ℕ) (o : Object Component)
    → b < length store
    → (bus_at (set_components store b o) b).components ≡ o
unfolding bus_at set_components
bus_at-set_components [] b o h = absurd (omega arith)
bus_at-set_components (s ∷ store) zero o h = refl
bus_at-set_components (s ∷ store) (suc b) o h = bus_at-set_components store b o (omega arith)

register-has :
    (store store' : Store) (b : ℕ) (name : Str) (x : Component)
    → b < length store
    → register store b name x ≡ ok store'
    → get (bus_at store' b).components name ≡ some x
unfolding register
register-has store store' b [] x h p = cc
register-has store store' b (c ∷ s) x h p =
    elim (Bool-cases (has (bus_at store b).components (c ∷ s))) [
      | inl used ↦ ground (arith, p, used)
      | inr free ↦
          let o = put (bus_at store b).components (c ∷ s) x in
          let e : set_components store b o ≡ store' = ground (arith, p, free) in
          rw (← e, bus_at-set_components store b o h)
            (ground (arith, get-put (bus_at store b).components (c ∷ s) (c ∷ s) x, eq_refl (c ∷ s)))
    ]

alias-register :
    (n : ℕ) (store store' : Store) (b : ℕ) (name : Str) (c : Channel)
    → alias n store b name (channel c) ≡ ok store'
    → register store b name (channel c) ≡ ok store'
unfolding alias or_resolve resolve_channel
alias-register zero store store' b name c p = cc
alias-register (suc n) store store' b name c p = p

-- Once `alias` has given a channel a plain name on a bus, that bus finds the channel by the name, and
-- so does each of its descendants that, like the buses between them, has no such name of its own;
-- `name!topic` is that channel, topicized.
pub alias-resolve_channel :
    (store store' : Store) (name topic : Str) (c : Channel) (b d depth m n : ℕ)
    → b < length store
    → IsPlain name
    → alias m store b name (channel c) ≡ ok store'
    → Inherits store' name d b depth
    → depth ≤ n
    → resolve_channel (suc (suc n)) store' d (named (address name topic))
      ≡ with_topic topic (ok (some c))
alias-resolve_channel store store' name topic c b d depth m n lt plain p i le =
    resolve_inherited store' name topic c d b depth n plain i
      (register-has store store' b name (channel c) lt (alias-register m store store' b name c p))
      le
