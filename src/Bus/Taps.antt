-- ===== src/Bus/Taps.antt =====
-- msgs.js, `_channel`: the taps of a channel, whose dispatcher is made when the first one comes, and
-- `destroy`.
use msgs.Dispatchers.Subscribable
use msgs.Dispatchers.Subscribable.{Handlers, subscribable_dispatcher}
use msgs.Dispatchers.Subscribable.Histories.{
  without, unsubscribe_lem, Call, subscribes, unsubscribes, run_calls, then_run,
}
use msgs.Base.{Eq, List, Option, [], ap, nat_eq, none, refl, some, ◌∙◌, ◌∷◌, ◌≡◌, sym}
use msgs.Js.Effect.{Js, Outcome, ok, out_of_fuel, throw}
use msgs.Js.Text.{str_eq}

-- `taps`: undefined until a handler taps the channel
abbrev pub Taps : Type 0 → Type 0
Taps H = Option (Handlers H)

module _ {H : Type 0} ⦃e : Eq H⦄ where
  abbrev pub or_made : Taps H → Handlers H
  or_made none = subscribable_dispatcher
  or_made (some hs) = hs

  some_of : Outcome (Handlers H) → Outcome (Taps H)
  some_of (ok hs) = ok (some hs)
  some_of (throw e) = throw e
  some_of out_of_fuel = out_of_fuel

  unfoldable pub tap : Taps H → H → Outcome (Taps H)
  unfolding some_of
  tap taps h = some_of (Subscribable.subscribe (or_made taps) h)

  unfoldable pub untap : Taps H → H → Outcome (Taps H)
  unfolding some_of
  untap none h = ok none
  untap (some hs) h = some_of (Subscribable.unsubscribe hs h)

  -- `if (taps) { taps.destroy(); }`
  unfoldable pub destroyed : Taps H → Taps H
  destroyed none = none
  destroyed (some hs) = some (Subscribable.destroy hs)

  -- `channel.destroy`, for a dispatcher that may have no `destroy`
  unfoldable pub destroy : {W : Type 0} → Option (Js W (Unit {0})) → Js (Taps H × W) (Unit {0})
  unfolding destroyed
  destroy none (taps, w) = (ok tt, (destroyed taps, w))
  destroy (some destroy_dispatcher) (taps, w) =
      let (r, w') = destroy_dispatcher w in (r, (destroyed taps, w'))

  -- Calls of `tap` and `untap`, as those of a dispatcher.
  unfoldable pub run_taps : Outcome (Taps H) → List (Call H) → Outcome (Taps H)
  run_taps r [] = r
  run_taps (ok t) (subscribes h ∷ cs) = run_taps (tap t h) cs
  run_taps (ok t) (unsubscribes h ∷ cs) = run_taps (untap t h) cs
  run_taps (throw v) cs = throw v
  run_taps out_of_fuel cs = out_of_fuel

  abbrev pub tapped : Outcome (Taps H) → Outcome (Handlers H)
  tapped (ok t) = ok (or_made t)
  tapped (throw e) = throw e
  tapped out_of_fuel = out_of_fuel

  tapped-some_of : (r : Outcome (Handlers H)) → tapped (some_of r) ≡ r
  unfolding some_of
  tapped-some_of (ok hs) = refl
  tapped-some_of (throw v) = refl
  tapped-some_of out_of_fuel = refl

  untap-made : (t : Taps H) (h : H) → tapped (untap t h) ≡ Subscribable.unsubscribe (or_made t) h
  unfolding untap without
  untap-made none h = sym (unsubscribe_lem [] h tt)
  untap-made (some hs) h = tapped-some_of (Subscribable.unsubscribe hs h)

  run_taps-made :
      (r : Outcome (Taps H)) (cs : List (Call H))
      → tapped (run_taps r cs) ≡ then_run (tapped r) (λ hs. run_calls hs cs)
  unfolding run_taps run_calls tap
  run_taps-made (ok t) [] = refl
  run_taps-made (throw v) [] = refl
  run_taps-made out_of_fuel [] = refl
  run_taps-made (ok t) (subscribes h ∷ cs) =
      run_taps-made (tap t h) cs
      ∙ ap (λ r. then_run r (λ hs. run_calls hs cs))
          (tapped-some_of (Subscribable.subscribe (or_made t) h))
  run_taps-made (ok t) (unsubscribes h ∷ cs) =
      run_taps-made (untap t h) cs ∙ ap (λ r. then_run r (λ hs. run_calls hs cs)) (untap-made t h)
  run_taps-made (throw v) (c ∷ cs) = refl
  run_taps-made out_of_fuel (c ∷ cs) = refl

  -- The taps of a channel are what they would be if their dispatcher were there from the start:
  -- after any calls of `tap` and `untap`, those that come before the first tap included, the handlers
  -- are those of a new dispatcher after the same calls of `subscribe` and `unsubscribe`.
  pub run_taps-run_calls :
      (cs : List (Call H)) → tapped (run_taps (ok none) cs) ≡ run_calls subscribable_dispatcher cs
  run_taps-run_calls cs = run_taps-made (ok none) cs
