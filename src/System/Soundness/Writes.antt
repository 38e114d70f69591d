-- ===== src/System/Soundness/Writes.antt =====
-- msgs.js: what the operations of a bus write keeps the program sound.
use msgs.Base.{
  ℕ, zero, suc, some, List, [], ◌∷◌, ◌++◌, ◌≡◌, ◌⊎◌, inl, inr, refl, sym, ap, ◌∙◌, get_elem?,
  length,
}
use msgs.Bus.Names.{Store}
use msgs.System.{System, BusState, ChannelState, HandlerState, set_at}
use msgs.System.Places.{length-snoc, get-append, get-behind, get-second}
use msgs.System.Growth.{Grows, Grows-refl, Grows-trans, IsClosed, Grows-IsClosed, bus_written}
use msgs.System.Construction.{with_child, child_state}
use msgs.System.Soundness.{HasBus, IsSound, IsSound-IsClosed, IsSound-bus_written, grown-HasBus}

-- The program is sound, and has all the buses and the channels that there were.
abbrev pub Stays : System → System → Type 0
Stays s t = IsSound t × Grows s t

pub Stays-IsClosed : (s : System) → IsClosed (Stays s)
Stays-IsClosed s =
    let sound = IsSound-IsClosed in
    let grows = Grows-IsClosed s in
    record {
      channel_closed = λ t c now state h p q.
          (sound.channel_closed t c now state h.0 p q, grows.channel_closed t c now state h.1 p q);
      factory_closed = λ t b now f h p.
          (sound.factory_closed t b now f h.0 p, grows.factory_closed t b now f h.1 p);
      cache_closed = λ t cache h. h;
    }

-- What stands in a list with more behind it stands in the list or behind it.
of_append {ℓ} :
    {A : Type ℓ} (xs ys : List A) (i : ℕ) (v : A)
    → get_elem? (xs ++ ys) i ≡ some v
    → (get_elem? xs i ≡ some v) ⊎ ((j : ℕ) × (get_elem? ys j ≡ some v))
of_append [] ys i v p = inr (i, p)
of_append (x ∷ xs) ys zero v p = inl p
of_append (x ∷ xs) ys (suc i) v p = of_append xs ys i v p

of_two {ℓ κ} :
    {A : Type ℓ} {B : Type κ} (f : A → B) (x y : A) (b : B)
    → f x ≡ b
    → f y ≡ b
    → (j : ℕ) (v : A) → get_elem? (x ∷ y ∷ []) j ≡ some v
    → f v ≡ b
of_two f x y b p q zero v r = cc
of_two f x y b p q (suc zero) v r = cc
of_two f x y b p q (suc (suc j)) v r = absurd (cc r)

module _ (s t : System) (h : Stays s t) where
  pub names_written :
      (names : Store) → length names ≡ length t.names → Stays s (record t { names = names })
  names_written names p = ((p ∙ h.0.0, h.0.1), h.1)

  pub handlers_written : (hs : List HandlerState) → Stays s (record t { handlers = hs })
  handlers_written hs = h

  pub channel_added :
      (state : ChannelState)
      → HasBus t state.bus
      → Stays s (record t { channels = t.channels ++ state ∷ [] })
  channel_added state b =
      let u : System = record t { channels = t.channels ++ state ∷ [] } in
      let more : Grows t u =
        (λ c old p. (old, get-append t.channels (state ∷ []) c old p, refl), (Grows-refl t).1) in
      (
        (
          h.0.0,
          λ c found p. elim (of_append t.channels (state ∷ []) c found p) [
            | inl q ↦ grown-HasBus t u found.bus more (h.0.1 c found q)
            | inr (zero, q) ↦ rw (sym (same state found q)) (grown-HasBus t u state.bus more b)
            | inr (suc j, q) ↦ absurd (cc q)
          ],
        ),
        Grows-trans s t u h.1 more,
      )
    where
      same : (x y : ChannelState) → some x ≡ some y → x.bus ≡ y.bus
      same x y q = cc

  pub child_pushed :
      (p : ℕ) (parent : BusState) (cs : List ℕ)
      → get_elem? t.buses p ≡ some parent
      → Stays s (record t { buses = set_at t.buses p (record parent { children = cs }) })
  child_pushed p parent cs q =
      (IsSound-bus_written t h.0 p parent _ q refl refl, bus_written s t h.1 p parent _ q refl refl)

  pub child_added : (p : ℕ) (parent : BusState) → Stays s (with_child t p parent)
  unfolding with_child
  child_added p parent =
      let u = with_child t p parent in
      let b = length t.buses in
      let k = length t.channels in
      let more : Grows t u = (
        λ c old q. (old, get-append t.channels _ c old q, refl),
        λ d old q. (old, get-append t.buses _ d old q, refl, refl),
      ) in
      let own : HasBus u b = (
        child_state (length t.names) k,
        get-behind t.buses [] _,
        _,
        get-second t.channels [] _ _,
        h.0.0,
      ) in
      (
        (
          length-snoc t.names _ ∙ ap suc h.0.0 ∙ sym (length-snoc t.buses _),
          λ c found q. elim (of_append t.channels _ c found q) [
            | inl r ↦ grown-HasBus t u found.bus more (h.0.1 c found r)
            | inr (j, r) ↦ rw (of_two {B = ℕ} (λ x. x.bus) _ _ b h.0.0 h.0.0 j found r) own
          ],
        ),
        Grows-trans s t u h.1 more,
      )
