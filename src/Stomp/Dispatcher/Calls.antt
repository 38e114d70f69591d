-- ===== src/Stomp/Dispatcher/Calls.antt =====
-- channels/dispatchers/stomp.js: `subscribe` and `unsubscribe`, call by call, on tables that fit
-- together.

use msgs.Dispatchers.Subscribable
use msgs.Dispatchers.Subscribable.{Handlers}
use msgs.Dispatchers.Subscribable.Histories.{
  IsSetOf, contains, subscribe_lem, unsubscribe_lem, without, subscribed-IsSetOf, without-IsSetOf,
}
use msgs.Dispatchers.Exchange.Topics.{IsLive, added}
use msgs.Js.Effect.{ok}
use msgs.Js.Text.{str_eq}
use msgs.Stomp.Client.{Client, Tables}
use msgs.Base.{Eq, List, Bool-cases, inl, inr, [], ◌∷◌, ◌++◌, none, some, ◌≡◌, refl, nat_eq}

module _ {H : Type 0} ⦃e : Eq H⦄ where
  added-cons : (x : H) (xs : List H) (h : H) → (y : H) × (ys : List H) × (added (x ∷ xs) h ≡ y ∷ ys)
  added-cons x xs h = elim (Bool-cases (contains (x ∷ xs) h)) [
    | inl old ↦ (x, xs, rw old refl)
    | inr new ↦ (x, xs ++ h ∷ [], rw new refl)
  ]

  -- What joining does to handlers of which one is left.
  pub subscribe-IsLive :
      (hs : Handlers H) (h : H)
      → IsLive hs
      → (hs' : Handlers H) × (Subscribable.subscribe hs h ≡ ok hs') × IsLive hs'
  subscribe-IsLive none h l = absurd l
  subscribe-IsLive (some []) h l = absurd l
  subscribe-IsLive (some (x ∷ xs)) h l =
      let (y, ys, p) = added-cons x xs h in
      (
        some (y ∷ ys),
        rw (← p) (subscribe_lem (x ∷ xs) h),
        rw p at (subscribed-IsSetOf (x ∷ xs) h l),
      )

  pub unsubscribe-IsSetOf :
      (hs : Handlers H) (h : H)
      → IsLive hs
      → (xs : List H) × (Subscribable.unsubscribe hs h ≡ ok (some xs)) × IsSetOf xs
  unsubscribe-IsSetOf none h l = absurd l
  unsubscribe-IsSetOf (some []) h l = absurd l
  unsubscribe-IsSetOf (some (x ∷ xs)) h l =
      (without (x ∷ xs) h, unsubscribe_lem (x ∷ xs) h l, without-IsSetOf (x ∷ xs) h l)

-- A dispatcher with its tables.
abbrev pub client : {H : Type 0} → Tables H → Client H → Client H
client t c = record c { tables = some t }
