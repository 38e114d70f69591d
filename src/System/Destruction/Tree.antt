-- ===== src/System/Destruction/Tree.antt =====
-- msgs.js: `destroy` of a bus with its children, their children and so on.
use msgs.Base.{
  ℕ, zero, suc, Bool, true, false, none, some, Option-cases, List, [], ◌∷◌, ◌++◌, ◌≡◌, refl, ap,
  ◌∙◌, get_elem?, eqb, eqb_iff, nat_eq, if◌then◌else◌, Bool-cases, inl, inr, All,
}
use msgs.Js.Text.{str_eq}
use msgs.Js.Effect.{ok, for_each}
use msgs.Bus.Names.{Store, bus_at, set_components}
use msgs.System.{System, BusState, ChannelState}
use msgs.System.Sending.{Services}
use msgs.System.Destroying.{destroy}
use msgs.System.Destruction.{shut_at, shut_all, Opened, shut_at-Opened}
use msgs.System.Destruction.Bus.{
  channels_of, owned, emptied, bus_at-set_components, bus_at-other, destroy_own-emptied,
}

-- A bus with a parent that can be destroyed: all channels that it owns are there, with dispatchers that
-- are not made elsewhere.
pub record IsReady (s : System) (b : ℕ) : Type 0 where
  pub bus : BusState
  pub parent : ℕ
  pub has_bus : get_elem? s.buses b ≡ some bus
  pub has_parent : (bus_at s.names b).parent ≡ some parent
  pub all_open : Opened s.channels (owned s b bus)

-- So are its children, their children and so on, in fewer generations than this.
abbrev pub IsTree : ℕ → System → ℕ → Type 0
IsTree zero s b = ⊥
IsTree (suc n) s b = (r : IsReady s b) × All (IsTree n s) r.bus.children

-- All that the buses of a list have.
abbrev pub gather : (ℕ → List ℕ) → List ℕ → List ℕ
gather f [] = []
gather f (b ∷ bs) = f b ++ gather f bs

-- The buses that are destroyed, children first.
unfoldable pub below : ℕ → List BusState → ℕ → List ℕ
below zero buses b = []
below (suc n) buses b = elim (get_elem? buses b) [
  | none ↦ []
  | some bus ↦ gather (below n buses) bus.children ++ b ∷ []
]

unfoldable pub emptied_at : System → ℕ → System
unfolding emptied
emptied_at s b = elim (get_elem? s.buses b) [ none ↦ s | some bus ↦ emptied s b bus ]

unfoldable pub emptied_each : System → List ℕ → System
unfolding emptied_at
emptied_each s [] = s
emptied_each s (b ∷ bs) = emptied_each (emptied_at s b) bs

unfoldable pub owned_at : System → ℕ → List ℕ
owned_at s b = elim (get_elem? s.buses b) [ none ↦ [] | some bus ↦ owned s b bus ]

Opened-right : (xs : List ChannelState) (cs ds : List ℕ) → Opened xs (cs ++ ds) → Opened xs ds
Opened-right xs [] ds o = o
Opened-right xs (c ∷ cs) ds o = Opened-right xs cs ds o.1

Opened-shut_all :
    (xs : List ChannelState) (cs ds : List ℕ) → Opened xs ds → Opened (shut_all xs cs) ds
unfolding shut_all
Opened-shut_all xs [] ds o = o
Opened-shut_all xs (c ∷ cs) ds o = Opened-shut_all (shut_at xs c) cs ds (shut_at-Opened xs c ds o)

parent-set_components :
    (names : Store) (b j : ℕ)
    → (bus_at (set_components names b []) j).parent ≡ (bus_at names j).parent
unfolding bus_at set_components
parent-set_components [] b j = refl
parent-set_components (x ∷ names) zero zero = refl
parent-set_components (x ∷ names) zero (suc j) = refl
parent-set_components (x ∷ names) (suc b) zero = refl
parent-set_components (x ∷ names) (suc b) (suc j) = parent-set_components names b j

-- What a bus owns once a bus is emptied.
pub owned-emptied :
    (s : System) (b j : ℕ) (bus bus' : BusState) (p : ℕ)
    → (bus_at s.names j).parent ≡ some p
    → owned (emptied s b bus) j bus' ≡ (
        if eqb b j
        then bus'.dead_letter_channel ∷ bus'.invalid_message_channel ∷ []
        else owned s j bus')
unfolding emptied
owned-emptied s b j bus bus' p h = elim (Bool-cases (eqb b j)) [
  | inl t ↦
      let e = (eqb_iff b j).0 t in rw (t, e) (rw (bus_at-set_components s.names j p [] h) refl)
  | inr f ↦ rw (f, bus_at-other s.names b j [] f) refl
]

pub ready-emptied :
    (s : System) (b j : ℕ) (bus : BusState) (r : IsReady s j)
    → (q : IsReady (emptied s b bus) j) × (q.bus ≡ r.bus)
unfolding emptied
ready-emptied s b j bus r = (
  record {
    bus = r.bus;
    parent = r.parent;
    has_bus = r.has_bus;
    has_parent = parent-set_components s.names b j ∙ r.has_parent;
    all_open =
        rw (owned-emptied s b j bus r.bus r.parent r.has_parent)
          (Opened-shut_all s.channels (owned s b bus) _ (left_open (eqb b j)));
  },
  refl,
)
  where
    left_open :
        (same : Bool)
        → Opened s.channels (
            if same
            then r.bus.dead_letter_channel ∷ r.bus.invalid_message_channel ∷ []
            else owned s j r.bus)
    left_open true =
        Opened-right s.channels (channels_of (bus_at s.names j).components) _ r.all_open
    left_open false = r.all_open

pub All-map {ℓ κ ν} :
    {A : Type ℓ} (P : A → Type κ) (Q : A → Type ν) (xs : List A)
    → ((x : A) → P x → Q x)
    → All P xs
    → All Q xs
All-map P Q [] f h = tt
All-map P Q (x ∷ xs) f h = (f x h.0, All-map P Q xs f h.1)

IsTree-emptied :
    (n : ℕ) (s : System) (b j : ℕ) (bus : BusState) → IsTree n s j → IsTree n (emptied s b bus) j
IsTree-emptied zero s b j bus t = t
IsTree-emptied (suc n) s b j bus (r, ts) =
    let (q, same) = ready-emptied s b j bus r in
    (
      q,
      rw same (
          All-map (IsTree n s) (IsTree n (emptied s b bus)) r.bus.children
            (λ c. IsTree-emptied n s b c bus) ts),
    )

IsTree-emptied_at : (n : ℕ) (s : System) (b j : ℕ) → IsTree n s j → IsTree n (emptied_at s b) j
unfolding emptied_at
IsTree-emptied_at n s b j t = elim (Option-cases (get_elem? s.buses b)) [
  | inl p ↦ rw (p, emptied_at) t
  | inr (bus, p) ↦ rw (p, emptied_at) (IsTree-emptied n s b j bus t)
]

IsTree-emptied_each :
    (n : ℕ) (s : System) (bs : List ℕ) (j : ℕ) → IsTree n s j → IsTree n (emptied_each s bs) j
unfolding emptied_each
IsTree-emptied_each n s [] j t = t
IsTree-emptied_each n s (b ∷ bs) j t =
    IsTree-emptied_each n (emptied_at s b) bs j (IsTree-emptied_at n s b j t)

buses-emptied_at : (s : System) (b : ℕ) → (emptied_at s b).buses ≡ s.buses
unfolding emptied_at emptied
buses-emptied_at s b = elim (Option-cases (get_elem? s.buses b)) [
  | inl p ↦ rw (p, emptied_at) refl
  | inr (bus, p) ↦ rw (p, emptied_at) refl
]

buses-emptied_each : (s : System) (bs : List ℕ) → (emptied_each s bs).buses ≡ s.buses
unfolding emptied_each
buses-emptied_each s [] = refl
buses-emptied_each s (b ∷ bs) = buses-emptied_each (emptied_at s b) bs ∙ buses-emptied_at s b

pub below_children :
    (n : ℕ) (buses : List BusState) (b : ℕ) (bus : BusState)
    → get_elem? buses b ≡ some bus
    → below (suc n) buses b ≡ gather (below n buses) bus.children ++ b ∷ []
unfolding below
below_children n buses b bus p = rw (p, below) refl

pub emptied_last :
    (s : System) (b : ℕ) (bus : BusState)
    → get_elem? s.buses b ≡ some bus
    → emptied_each s (b ∷ []) ≡ emptied s b bus
unfolding emptied_each emptied_at
emptied_last s b bus p = rw (p, emptied_at) refl

emptied_each-append :
    (s : System) (bs cs : List ℕ) → emptied_each s (bs ++ cs) ≡ emptied_each (emptied_each s bs) cs
unfolding emptied_each
emptied_each-append s [] cs = refl
emptied_each-append s (b ∷ bs) cs = emptied_each-append (emptied_at s b) bs cs

module _ {W : Type 0} (services : Services W) where
  -- The children, one after another.
  children_lem :
      (n : ℕ)
      → ((b : ℕ) (s : System) (w : W)
          → IsTree n s b
          → destroy services n b (s, w) ≡ (ok tt, (emptied_each s (below n s.buses b), w)))
      → (cs : List ℕ) (s : System) (w : W) → All (IsTree n s) cs
      → for_each (destroy services n) cs (s, w)
        ≡ (ok tt, (emptied_each s (gather (below n s.buses) cs), w))
  unfolding for_each emptied_each
  children_lem n one [] s w ts = refl
  children_lem n one (c ∷ cs) s w ts =
      let first = below n s.buses c in
      let then_state = emptied_each s first in
      rw
        (
          one c s w ts.0,
          children_lem n one cs then_state w (
              All-map (IsTree n s) (IsTree n then_state) cs (λ j. IsTree-emptied_each n s first j)
                ts.1),
          buses-emptied_each s first,
          emptied_each-append s first (gather (below n s.buses) cs),
        )
        refl

  pub destroy_lem :
      (n b : ℕ) (s : System) (w : W)
      → IsTree n s b
      → destroy services n b (s, w) ≡ (ok tt, (emptied_each s (below n s.buses b), w))
  unfolding destroy
  destroy_lem zero b s w t = absurd t
  destroy_lem (suc n) b s w (r, ts) =
      let before = gather (below n s.buses) r.bus.children in
      let reached = emptied_each s before in
      let (q, _) = IsTree-emptied_each (suc n) s before b (r, ts) in
      let still : get_elem? reached.buses b ≡ some r.bus =
        ap (λ bs. get_elem? bs b) (buses-emptied_each s before) ∙ r.has_bus in
      let same : q.bus ≡ r.bus = cc (q.has_bus, still) in
      rw
        (
          below_children n s.buses b r.bus r.has_bus,
          emptied_each-append s before (b ∷ []),
          emptied_last reached b r.bus still,
          r.has_parent,
          r.has_bus,
          children_lem n (destroy_lem n) r.bus.children s w ts,
        )
        (rw same at
          (destroy_own-emptied services reached w b q.parent q.bus q.has_parent q.all_open))
