-- ===== src/System/Destruction/Lookups.antt =====
-- msgs.js: the names and the channels that `destroy` of a bus leaves.
use msgs.Base.{
  ℕ, zero, suc, Bool, true, false, some, List, [], ◌∷◌, ◌++◌, ◌≡◌, refl, sym, ap, ◌∙◌, ◌||◌, ◌⊎◌,
  get_elem?, eqb, eqb_iff, nat_eq, if◌then◌else◌, Bool-cases, inl, inr, All, All-append,
}
use msgs.Js.Text.{str_eq}
use msgs.Js.Effect.{ok}
use msgs.Js.Object.{Object}
use msgs.Bus.Names.{Component, bus_at}
use msgs.System.{System, BusState}
use msgs.System.Sending.{Services}
use msgs.System.Destroying.{destroy}
use msgs.System.Destruction.{shut_option, is_in, get-shut_all, shut_twice}
use msgs.System.Destruction.Bus.{channels_of, owned, emptied, bus_at-set_components, bus_at-other}
use msgs.System.Destruction.Tree.{
  IsReady, IsTree, gather, below, emptied_at, emptied_each, owned_at, ready-emptied, All-map,
  owned-emptied, below_children, destroy_lem,
}

All-gather {κ ν} :
    (P : ℕ → Type κ) (Q : ℕ → Type ν) (f : ℕ → List ℕ) (cs : List ℕ)
    → ((c : ℕ) → Q c → All P (f c))
    → All Q cs
    → All P (gather f cs)
All-gather P Q f [] h q = tt
All-gather P Q f (c ∷ cs) h q =
    All-append P (f c) (gather f cs) (h c q.0) (All-gather P Q f cs h q.1)

-- The buses of a tree can all be destroyed.
ready_below : (n b : ℕ) (s : System) → IsTree n s b → All (IsReady s) (below n s.buses b)
ready_below zero b s t = absurd t
ready_below (suc n) b s (r, ts) = rw (below_children n s.buses b r.bus r.has_bus) (
    All-append (IsReady s) (gather (below n s.buses) r.bus.children) (b ∷ [])
      (All-gather (IsReady s) (IsTree n s) (below n s.buses) r.bus.children (λ c. ready_below n c s)
        ts)
      (r, tt))

emptied_each-ready :
    (s : System) (b : ℕ) (bs : List ℕ) (r : IsReady s b)
    → emptied_each s (b ∷ bs) ≡ emptied_each (emptied s b r.bus) bs
unfolding emptied_each emptied_at
emptied_each-ready s b bs r =
    ap (λ t. emptied_each t bs)
      (let e : emptied_at s b ≡ emptied s b r.bus = rw (r.has_bus, emptied_at) refl in e)

owned_at_ready : (s : System) (b : ℕ) (r : IsReady s b) → owned_at s b ≡ owned s b r.bus
unfolding owned_at
owned_at_ready s b r = rw (r.has_bus, owned_at) refl

still_ready :
    (s : System) (b : ℕ) (bus : BusState) (bs : List ℕ)
    → All (IsReady s) bs
    → All (IsReady (emptied s b bus)) bs
still_ready s b bus bs =
    All-map (IsReady s) (IsReady (emptied s b bus)) bs (λ j r. (ready-emptied s b j bus r).0)

components-emptied :
    (s : System) (b j p : ℕ) (bus : BusState)
    → (bus_at s.names b).parent ≡ some p
    → (bus_at (emptied s b bus).names j).components
      ≡ (if eqb b j then [] else (bus_at s.names j).components)
unfolding emptied
components-emptied s b j p bus h = elim (Bool-cases (eqb b j)) [
  | inl t ↦
      rw (t, sym ((eqb_iff b j).0 t))
        (ap (λ x. x.components) (bus_at-set_components s.names b p [] h))
  | inr f ↦ rw (f, bus_at-other s.names b j [] f) refl
]

or_choose {ℓ} :
    {A : Type ℓ} (p q : Bool) (x y : A)
    → (if q then x else (if p then x else y)) ≡ (if p || q then x else y)
or_choose true true x y = refl
or_choose true false x y = refl
or_choose false q x y = refl

pub components-emptied_each :
    (s : System) (bs : List ℕ) (j : ℕ)
    → All (IsReady s) bs
    → (bus_at (emptied_each s bs).names j).components
      ≡ (if is_in j bs then [] else (bus_at s.names j).components)
components-emptied_each s [] j h = unfold emptied_each in refl
components-emptied_each s (b ∷ bs) j (r, rs) = rw (emptied_each-ready s b bs r) (
    components-emptied_each (emptied s b r.bus) bs j (still_ready s b r.bus bs rs)
    ∙ ap (λ (x : Object Component). if is_in j bs then [] else x)
        (components-emptied s b j r.parent r.bus r.has_parent)
    ∙ or_choose (eqb b j) (is_in j bs) [] (bus_at s.names j).components)

is_in-append : (c : ℕ) (xs ys : List ℕ) → is_in c (xs ++ ys) ≡ (is_in c xs || is_in c ys)
is_in-append c [] ys = refl
is_in-append c (x ∷ xs) ys =
    ap (λ q. eqb x c || q) (is_in-append c xs ys)
    ∙ sym (or_assoc (eqb x c) (is_in c xs) (is_in c ys))
  where
    or_assoc : (p q r : Bool) → ((p || q) || r) ≡ (p || (q || r))
    or_assoc true q r = refl
    or_assoc false q r = refl

or_part : (q x : Bool) → ((q || x) || x) ≡ ((q || x) || (q || x))
or_part true x = refl
or_part false true = refl
or_part false false = refl

or_spread :
    (p x y x' y' : Bool)
    → (p || x) ≡ (p || x')
    → (p || y) ≡ (p || y')
    → (p || (x || y)) ≡ (p || (x' || y'))
or_spread true x y x' y' h k = refl
or_spread false x y x' y' h k = rw (h, k) refl

module _ (s : System) (b c : ℕ) (r : IsReady s b) where
  -- What a bus owned before, it or the emptied bus `b` owned.
  owned_before :
      (j : ℕ) (q : IsReady s j)
      → (is_in c (owned s b r.bus) || is_in c (owned_at (emptied s b r.bus) j))
        ≡ (is_in c (owned s b r.bus) || is_in c (owned_at s j))
  owned_before j q =
      let (q', same) = ready-emptied s b j r.bus q in
      rw
        (
          owned_at_ready s j q,
          owned_at_ready (emptied s b r.bus) j q',
          same,
          owned-emptied s b j r.bus q.bus q.parent q.has_parent,
        )
        (at_same (Bool-cases (eqb b j)))
    where
      at_same :
          ((eqb b j ≡ true) ⊎ (eqb b j ≡ false))
          → (is_in c (owned s b r.bus)
              || is_in c (
                  if eqb b j
                  then q.bus.dead_letter_channel ∷ q.bus.invalid_message_channel ∷ []
                  else owned s j q.bus))
            ≡ (is_in c (owned s b r.bus) || is_in c (owned s j q.bus))
      at_same (inl t) =
          let names = channels_of (bus_at s.names b).components in
          let own = r.bus.dead_letter_channel ∷ r.bus.invalid_message_channel ∷ [] in
          let e : b ≡ j = (eqb_iff b j).0 t in
          let same_bus : q.bus ≡ r.bus = cc (q.has_bus, r.has_bus, e) in
          rw (t, same_bus, sym e, is_in-append c names own) (or_part (is_in c names) (is_in c own))
      at_same (inr f) = rw f refl

  gathered_before :
      (bs : List ℕ)
      → All (IsReady s) bs
      → (is_in c (owned s b r.bus) || is_in c (gather (owned_at (emptied s b r.bus)) bs))
        ≡ (is_in c (owned s b r.bus) || is_in c (gather (owned_at s) bs))
  gathered_before [] h = refl
  gathered_before (j ∷ bs) (q, qs) =
      rw
        (
          is_in-append c (owned_at (emptied s b r.bus) j)
              (gather (owned_at (emptied s b r.bus)) bs),
          is_in-append c (owned_at s j) (gather (owned_at s) bs),
        )
        (or_spread (is_in c (owned s b r.bus)) _ _ _ _ (owned_before j q) (gathered_before bs qs))

channels-emptied :
    (s : System) (b c : ℕ) (bus : BusState)
    → get_elem? (emptied s b bus).channels c ≡ (
        if is_in c (owned s b bus)
        then shut_option (get_elem? s.channels c)
        else get_elem? s.channels c)
unfolding emptied
channels-emptied s b c bus = get-shut_all s.channels (owned s b bus) c

pub channels-emptied_each :
    (s : System) (bs : List ℕ) (c : ℕ)
    → All (IsReady s) bs
    → get_elem? (emptied_each s bs).channels c ≡ (
        if is_in c (gather (owned_at s) bs)
        then shut_option (get_elem? s.channels c)
        else get_elem? s.channels c)
channels-emptied_each s [] c h = unfold emptied_each in refl
channels-emptied_each s (b ∷ bs) c (r, rs) =
    let x = get_elem? s.channels c in
    let rest = is_in c (gather (owned_at (emptied s b r.bus)) bs) in
    rw (emptied_each-ready s b bs r, owned_at_ready s b r)
      (channels-emptied_each (emptied s b r.bus) bs c (still_ready s b r.bus bs rs)
        ∙ ap (λ y. if rest then shut_option y else y) (channels-emptied s b c r.bus)
        ∙ shut_twice (is_in c (owned s b r.bus)) rest x
        ∙ ap (λ q. if q then shut_option x else x)
            (gathered_before s b c r bs rs
              ∙ sym (is_in-append c (owned s b r.bus) (gather (owned_at s) bs))))

-- Destroying a bus with a parent, where the bus, its children, their children and so on for at most
-- as many generations as there is fuel are there, and so are all channels that these own, with
-- dispatchers that are not made elsewhere: it comes to an end and throws nothing. It leaves the
-- buses of the tree without names and the names of every other bus as they were; of the channels
-- that a bus of the tree had a name for, and of its own two, the subscribed handlers, the topics
-- and the taps are gone, while a queue keeps its messages and a direct channel its handler; and
-- every other channel is as it was.
pub destroy-tree :
    {W : Type 0} (services : Services W) (s : System) (w : W) (n b : ℕ)
    → IsTree n s b
    → (destroy services n b (s, w) ≡ (ok tt, (emptied_each s (below n s.buses b), w)))
      × ((j : ℕ)
          → (bus_at (emptied_each s (below n s.buses b)).names j).components
            ≡ (if is_in j (below n s.buses b) then [] else (bus_at s.names j).components))
      × ((c : ℕ)
          → get_elem? (emptied_each s (below n s.buses b)).channels c ≡ (
              if is_in c (gather (owned_at s) (below n s.buses b))
              then shut_option (get_elem? s.channels c)
              else get_elem? s.channels c))
destroy-tree services s w n b t =
    let ready = ready_below n b s t in
    (
      destroy_lem services n b s w t,
      λ j. components-emptied_each s (below n s.buses b) j ready,
      λ c. channels-emptied_each s (below n s.buses b) c ready,
    )
