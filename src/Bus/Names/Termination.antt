-- ===== src/Bus/Names/Termination.antt =====
-- msgs.js: `resolveChannel` of a name comes to an end, at the nearest bus that has it.
use msgs.Bus.Names.{resolve_channel, with_topic, bus_at, Channel, Component, Store, channel, named}
use msgs.Bus.Names.Inheritance.{IsPlain, resolve_own, resolve_nowhere, resolve_above}
use msgs.Base.{
  Option, Option-cases, [], ap, arith, inl, inr, none, some, suc, zero, ℕ, ◌<◌, ◌≡◌, ◌∙◌,
}
use msgs.Js.Object.{get}
use msgs.Js.Effect.{ok}
use msgs.Js.Text.{Str, str_eq}

-- What a name stands for on a bus: what the bus itself has, or else what its parent has; none if no bus
-- up to the first has it.
pub data Nearest (store : Store) (name : Str) : ℕ → Option Channel → Type 0 where
  here :
      {b : ℕ} {c : Channel}
      → get (bus_at store b).components name ≡ some (channel c)
      → Nearest store name b (some c)
  nowhere :
      {b : ℕ}
      → get (bus_at store b).components name ≡ none
      → (bus_at store b).parent ≡ none
      → Nearest store name b none
  above :
      {b p : ℕ} {r : Option Channel}
      → get (bus_at store b).components name ≡ none
      → (bus_at store b).parent ≡ some p
      → Nearest store name p r
      → Nearest store name b r

-- Wherever a bus has the name, it is that of a channel.
abbrev pub NamesChannels : Store → Str → Type 0
NamesChannels store name =
    (b : ℕ) (y : Component)
    → get (bus_at store b).components name ≡ some y
    → (c : Channel) × (y ≡ channel c)

-- A parent is made before its children.
abbrev pub ParentsFirst : Store → Type 0
ParentsFirst store = (b p : ℕ) → (bus_at store b).parent ≡ some p → p < b

-- Where every parent has a lower number than its children, and a name without `!` stands for a
-- channel on every bus that has it, resolving the name on any bus comes to an end, with as much
-- fuel as two calls more than the number of the bus: it gives the channel that the bus has by the
-- name, or else its parent, and so on, and undefined if none up to the first bus has it.
pub resolve_channel-Nearest :
    (store : Store) (name : Str) (n b : ℕ)
    → ParentsFirst store
    → NamesChannels store name
    → IsPlain name
    → suc b < n
    → (r : Option Channel) × Nearest store name b r
      × (resolve_channel n store b (named name) ≡ ok r)
unfolding with_topic
resolve_channel-Nearest store name zero b first channels plain l = absurd (omega (arith, l))
resolve_channel-Nearest store name (suc zero) b first channels plain l = absurd (omega (arith, l))
resolve_channel-Nearest store name (suc (suc n)) b first channels plain l =
    elim (Option-cases (get (bus_at store b).components name)) [
      | inr (y, p) ↦
          let (c, e) = channels b y p in
          (
            some c,
            Nearest.here (p ∙ ap some e),
            resolve_own n store b name [] plain c (p ∙ ap some e),
          )
      | inl q ↦ elim (Option-cases (bus_at store b).parent) [
        | inl root ↦
            (none, Nearest.nowhere q root, resolve_nowhere (suc n) store b name [] plain q root)
        | inr (p, up) ↦
            let (r, near, found) =
              resolve_channel-Nearest store name (suc n) p first channels plain
                (omega (arith, first b p up, l)) in
            (r, Nearest.above q up near, resolve_above (suc n) store b name [] plain p q up ∙ found)
      ]
    ]
