-- ===== src/System/Destruction.antt =====
-- msgs.js: the channels of a program after some of them are destroyed.
pub mod Bus
pub mod Tree
pub mod Lookups
use msgs.Base.{
  ℕ, zero, suc, Bool, true, false, Option, none, some, List, [], ◌∷◌, ◌++◌, ◌≡◌, refl, ap, ◌∙◌,
  ◌||◌, get_elem?, eqb, arith, nat_eq, if◌then◌else◌, Bool-cases, inl, inr,
}
use msgs.Js.Text.{str_eq}
use msgs.Js.Effect.{◌>>◌, ◌>>=◌}
use msgs.Bus.Taps.{Taps}
use msgs.Dispatchers.Subscribable
use msgs.System.{
  ChannelState, Dispatcher, noop, broadcast, unicast, direct, pollable, exchange, outer, set_at,
  Subscriber, subscriber_eq,
}

-- A dispatcher without handlers and topics.
unfoldable pub shut_dispatcher : Dispatcher → Dispatcher
shut_dispatcher (broadcast hs) = broadcast none
shut_dispatcher (unicast hs) = unicast none
shut_dispatcher (exchange m ts) = exchange m none
shut_dispatcher d = d

-- Taps of which none is left, if there ever were any.
unfoldable pub silent : Taps Subscriber → Taps Subscriber
silent none = none
silent (some hs) = some none

-- A channel after `destroy`.
unfoldable pub shut : ChannelState → ChannelState
unfolding shut_dispatcher silent
shut state = record state {
  dispatcher = shut_dispatcher state.dispatcher;
  taps = silent state.taps;
}

abbrev pub shut_option : Option ChannelState → Option ChannelState
shut_option none = none
shut_option (some state) = some (shut state)

-- A dispatcher that is not made elsewhere.
abbrev pub IsBuiltIn : Dispatcher → Type 0
IsBuiltIn (outer d) = ⊥
IsBuiltIn _ = Unit

shut_dispatcher-shut_dispatcher :
    (d : Dispatcher) → shut_dispatcher (shut_dispatcher d) ≡ shut_dispatcher d
unfolding shut_dispatcher
shut_dispatcher-shut_dispatcher (broadcast hs) = refl
shut_dispatcher-shut_dispatcher (unicast hs) = refl
shut_dispatcher-shut_dispatcher (exchange m ts) = refl
shut_dispatcher-shut_dispatcher noop = refl
shut_dispatcher-shut_dispatcher (direct h) = refl
shut_dispatcher-shut_dispatcher (pollable q) = refl
shut_dispatcher-shut_dispatcher (outer o) = refl

silent-silent : (taps : Taps Subscriber) → silent (silent taps) ≡ silent taps
unfolding silent
silent-silent none = refl
silent-silent (some hs) = refl

shut_option-shut_option : (x : Option ChannelState) → shut_option (shut_option x) ≡ shut_option x
unfolding shut
shut_option-shut_option none = refl
shut_option-shut_option (some state) =
    rw (shut_dispatcher-shut_dispatcher state.dispatcher, silent-silent state.taps) refl

-- The channels after one of them is destroyed, and after several are.
unfoldable pub shut_at : List ChannelState → ℕ → List ChannelState
unfolding shut
shut_at [] c = []
shut_at (x ∷ xs) zero = shut x ∷ xs
shut_at (x ∷ xs) (suc c) = x ∷ shut_at xs c

unfoldable pub shut_all : List ChannelState → List ℕ → List ChannelState
unfolding shut_at
shut_all xs [] = xs
shut_all xs (c ∷ cs) = shut_all (shut_at xs c) cs

abbrev pub is_in : ℕ → List ℕ → Bool
is_in j [] = false
is_in j (c ∷ cs) = eqb c j || is_in j cs

get-shut_at :
    (xs : List ChannelState) (c j : ℕ)
    → get_elem? (shut_at xs c) j
      ≡ (if eqb c j then shut_option (get_elem? xs j) else get_elem? xs j)
unfolding shut_at
get-shut_at [] c j = ground arith
get-shut_at (x ∷ xs) zero zero = refl
get-shut_at (x ∷ xs) zero (suc j) = ground arith
get-shut_at (x ∷ xs) (suc c) zero = ground arith
get-shut_at (x ∷ xs) (suc c) (suc j) = ground (arith, get-shut_at xs c j)

pub shut_twice :
    (p q : Bool) (x : Option ChannelState)
    → (if q then shut_option (if p then shut_option x else x) else (if p then shut_option x else x))
      ≡ (if p || q then shut_option x else x)
shut_twice true true x = shut_option-shut_option x
shut_twice true false x = refl
shut_twice false q x = refl

pub get-shut_all :
    (xs : List ChannelState) (cs : List ℕ) (j : ℕ)
    → get_elem? (shut_all xs cs) j
      ≡ (if is_in j cs then shut_option (get_elem? xs j) else get_elem? xs j)
unfolding shut_all
get-shut_all xs [] j = refl
get-shut_all xs (c ∷ cs) j =
    get-shut_all (shut_at xs c) cs j
    ∙ ap (λ x. if is_in j cs then shut_option x else x) (get-shut_at xs c j)
    ∙ shut_twice (eqb c j) (is_in j cs) (get_elem? xs j)

-- Each of these channels is there, and its dispatcher is not made elsewhere.
abbrev pub Opened : List ChannelState → List ℕ → Type 0
Opened xs [] = Unit
Opened xs (c ∷ cs) =
    ((state : ChannelState) × (get_elem? xs c ≡ some state) × IsBuiltIn state.dispatcher)
    × Opened xs cs

pub set_at-set_at {ℓ} :
    {A : Type ℓ} (xs : List A) (c : ℕ) (x y : A) → set_at (set_at xs c x) c y ≡ set_at xs c y
unfolding set_at
set_at-set_at [] c x y = refl
set_at-set_at (z ∷ xs) zero x y = refl
set_at-set_at (z ∷ xs) (suc c) x y = ap (λ zs. z ∷ zs) (set_at-set_at xs c x y)

pub set_at-shut :
    (xs : List ChannelState) (c : ℕ) (state : ChannelState)
    → get_elem? xs c ≡ some state
    → set_at xs c (shut state) ≡ shut_at xs c
unfolding set_at shut_at
set_at-shut [] c state p = refl
set_at-shut (x ∷ xs) zero state p = ap (λ y. shut y ∷ xs) (cc)
set_at-shut (x ∷ xs) (suc c) state p = ap (λ zs. x ∷ zs) (set_at-shut xs c state p)

shut-IsBuiltIn : (d : Dispatcher) → IsBuiltIn d → IsBuiltIn (shut_dispatcher d)
unfolding shut_dispatcher
shut-IsBuiltIn (broadcast hs) i = i
shut-IsBuiltIn (unicast hs) i = i
shut-IsBuiltIn (exchange m ts) i = i
shut-IsBuiltIn noop i = i
shut-IsBuiltIn (direct h) i = i
shut-IsBuiltIn (pollable q) i = i
shut-IsBuiltIn (outer o) i = absurd i

pub shut_at-Opened :
    (xs : List ChannelState) (c : ℕ) (cs : List ℕ) → Opened xs cs → Opened (shut_at xs c) cs
unfolding shut
shut_at-Opened xs c [] o = tt
shut_at-Opened xs c (d ∷ cs) ((state, p, i), o) = (
  elim (Bool-cases (eqb c d)) [
    | inl t ↦ (shut state, rw (get-shut_at xs c d, t, p) refl, shut-IsBuiltIn state.dispatcher i)
    | inr f ↦ (state, rw (get-shut_at xs c d, f) p, i)
  ],
  shut_at-Opened xs c cs o,
)

-- Channels that are left to destroy, after some are.
pub shut_all-Opened :
    (xs : List ChannelState) (cs ds : List ℕ)
    → Opened xs (cs ++ ds)
    → Opened xs cs × Opened (shut_all xs cs) ds
unfolding shut_all
shut_all-Opened xs [] ds o = (tt, o)
shut_all-Opened xs (c ∷ cs) ds (first, o) =
    let (here, _) = shut_all-Opened xs cs ds o in
    let (_, there) = shut_all-Opened (shut_at xs c) cs ds (shut_at-Opened xs c (cs ++ ds) o) in
    ((first, here), there)

pub shut_all-append :
    (xs : List ChannelState) (cs ds : List ℕ)
    → shut_all (shut_all xs cs) ds ≡ shut_all xs (cs ++ ds)
unfolding shut_all
shut_all-append xs [] ds = refl
shut_all-append xs (c ∷ cs) ds = shut_all-append (shut_at xs c) cs ds
