-- ===== src/Dispatchers/Exchange/Topical.antt =====
-- channels/dispatchers/exchange.js, `exchangeDispatcher.matchers.topical`: a subscription is turned into
-- a regular expression, which is kept for the next message.
pub mod Words
pub mod Replacing
pub mod Pattern
pub mod Reading
pub mod Meaning
pub mod Matching
use msgs.Base.{Bool, Option, none, some, ◌≡◌, refl}
use msgs.Js.Text.{Str, text}
use msgs.Js.RegExp.{replace_all, parse_pattern, full_match}
use msgs.Js.Effect.{Js, Outcome, ok, get_state, lift, pure, set_state, ◌>>=◌, ◌>>◌}
use msgs.Js.Object.{Object, get, put}
use msgs.Js.Value.{Value, to_string}

-- A compiled expression, by its `test`.
abbrev pub RegExp : Type 0
RegExp = Str → Bool

-- The replacements, in their order.
unfoldable pub pattern_of : Str → Str
unfolding replace_all
pattern_of subscription = replace_all (text "#") (text "(?:.+)?") (
    replace_all (text "\\.#") (text "(?:\\..+)?") (
      replace_all (text "#\\.") (text "(?:.+\\.)?") (
        replace_all (text "#\\.#") (text "#") (
          replace_all (text "*") (text "[^.]+")
            (replace_all (text ".") (text "\\.") subscription)))))

-- `other` is `RegExp` for the patterns whose syntax is none of the matcher's own.
module _ (other : Str → Outcome RegExp) where
  -- `new RegExp('^' + pattern + '$')`
  unfoldable pub new_reg_exp : Str → Outcome RegExp
  unfolding parse_pattern full_match
  new_reg_exp pattern = elim (parse_pattern pattern) [
    | some rs ↦ ok (full_match rs)
    | none ↦ other pattern
  ]

  -- `cache[subscription]`, which is made if it is not there
  unfoldable pub cached : Str → Option RegExp → Js (Object RegExp) RegExp
  unfolding new_reg_exp pattern_of
  cached subscription (some re) = pure re
  cached subscription none = do
    re ← lift (new_reg_exp (pattern_of subscription))
    cache ← get_state
    set_state (put cache subscription re)
    pure re

  unfoldable pub topical_matcher : Str → Value → Js (Object RegExp) Bool
  unfolding cached
  topical_matcher subscription topic = do
    cache ← get_state
    re ← cached subscription (get cache subscription)
    pure (re (to_string topic))

hash_inside : pattern_of (text "a.#.b.*") ≡ text "a\\.(?:.+\\.)?b\\.[^.]+"
unfolding pattern_of
hash_inside = refl
