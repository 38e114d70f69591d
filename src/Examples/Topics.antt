-- ===== src/Examples/Topics.antt =====
-- Topics of exchanges, and the channels that a wire context declares.
use msgs.Base.{ℕ, List, [], ◌∷◌, ◌++◌, ◌≡◌, refl, true, false, some, none, nat_eq}
use msgs.Bus.Taps.{run_taps, run_taps-run_calls, tapped}
use msgs.Dispatchers.Exchange.Topical.{RegExp, topical_matcher}
use msgs.Dispatchers.Exchange.Topical.Matching.{after_matches, topical_matcher-topic_matches}
use msgs.Dispatchers.Exchange.Topical.Words.{
  Subscription, body, end, next_hash, literal, star, topic_matches,
}
use msgs.Dispatchers.Subscribable.Histories.{Call, subscribes, unsubscribes, run_calls}
use msgs.Js.Effect.{Js, Outcome, ok, throw}
use msgs.Js.Object.{get}
use msgs.Js.Text.{Str, text, str_eq}
use msgs.Js.Value.{Value, to_string}
use msgs.Wire.{Config, by_type, channels_factory, channels_factory-declared, done, next}

-- `a.#.*`
abbrev some_words : Subscription
some_words = body (next_hash (literal (text "a")) (end star))

abbrev no_reg_exp : Str → Outcome RegExp
no_reg_exp s = throw Value.type_error

-- The topic `a.b.c`, after another one has been tried.
topical_matcher-topic_matches_example :
    (topical_matcher no_reg_exp
      (text "a.#.*")
      (Value.str (text "a.b.c"))
      (after_matches no_reg_exp [] ((text "a.#.*", Value.str (text "a")) ∷ []))).0
    ≡ ok true
unfolding topic_matches
topical_matcher-topic_matches_example =
    topical_matcher-topic_matches no_reg_exp ((text "a.#.*", Value.str (text "a")) ∷ []) some_words
      (text "a" ∷ text "b" ∷ text "c" ∷ []) ((tt, ((refl, refl), tt)), tt)
      ((tt, ((refl, refl), tt)), ((tt, ((refl, refl), tt)), ((tt, ((refl, refl), tt)), tt)))

-- Three `#` in a row behind a word: the word alone is not matched, as it is by one `#`.
three_hashes : (topical_matcher no_reg_exp (text "a.#.#.#") (Value.str (text "a")) []).0 ≡ ok false
unfolding topical_matcher to_string get
three_hashes = refl

one_hash : (topical_matcher no_reg_exp (text "a.#") (Value.str (text "a")) []).0 ≡ ok true
unfolding topical_matcher to_string get
one_hash = refl

-- The channels of a context, each of which notes its name.
abbrev two_types : Config
two_types =
    by_type
      ((text "channel", Value.str (text "a")) ∷ (text "pubsubChannel", Value.str (text "b")) ∷ [])

abbrev note : Str → Value → Js (List Value) (Unit {0})
note type name w = (ok tt, w ++ name ∷ [])

channels_factory-declared_example :
    channels_factory note (λ w. (ok tt, w)) (λ s w. (ok tt, w)) (λ v. []) two_types []
    ≡ (ok tt, Value.str (text "a") ∷ Value.str (text "b") ∷ [])
channels_factory-declared_example =
    channels_factory-declared note (λ w. (ok tt, w)) (λ s w. (ok tt, w)) (λ v. []) two_types []
      (Value.str (text "a") ∷ Value.str (text "b") ∷ []) none (next refl (next refl done))

-- A tap that is taken off before and after it is put on.
abbrev some_taps : List (Call ℕ)
some_taps = unsubscribes 3 ∷ subscribes 3 ∷ subscribes 4 ∷ unsubscribes 3 ∷ []

run_taps-run_calls_example :
    tapped (run_taps (ok none) some_taps) ≡ run_calls {H = ℕ} (some []) some_taps
run_taps-run_calls_example = run_taps-run_calls some_taps
