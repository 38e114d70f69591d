-- ===== src/Dispatchers/Exchange/Topical/Pattern.antt =====
-- exchange.js, the replacements of the topical matcher: what becomes of a subscription, word by word.
use msgs.Base.{ℕ, zero, true, [], ◌∷◌, ◌++◌, ◌==◌, ◌||◌, ◌≡◌, refl, nat_eq}
use msgs.Js.Text.{Str, text}
use msgs.Js.RegExp.{is_syntax, replace_all, replace_from}
use msgs.Dispatchers.Exchange.Topical.{pattern_of}
use msgs.Dispatchers.Exchange.Topical.Words.{
  Segment, literal, star, Subscription, nothing, only_hash, body, hash_body, spelled,
  subscription_text, IsSegment, IsSubscription,
}
use msgs.Dispatchers.Exchange.Topical.Replacing.{
  IsStep, replace_body, body-NotHash, plain-Lacks, replace-Lacks, segment-Lacks, spelled-NotHash,
  pattern-NotHash, Lacks, NotHash, segment_pattern, subscription_pattern,
}

-- `.replace(wordSeparatorRE, '\\.')`
dots_step :
    IsStep b'.' []
      (text "\\.")
      spelled
      spelled
      (text ".#")
      (text ".")
      (text ".#.")
      (text "\\.#")
      (text "\\.")
      (text "\\.#\\.")
dots_step = record {
  starts = spelled-NotHash;
  on_segment = λ w v rest. replace-Lacks b'.' [] (text "\\.") (spelled w) rest (lacks w v);
  on_hash = refl;
  on_dot = λ rest h. refl;
  on_inner = λ rest h. refl;
}
  where
    lacks : (w : Segment) → IsSegment w → Lacks b'.' (spelled w)
    lacks (literal s) v = plain-Lacks b'.' s refl v.1
    lacks star v = (refl, tt)

-- `.replace(singleWordRE, '[^.]+')`
stars_step :
    IsStep b'*' []
      (text "[^.]+")
      spelled
      segment_pattern
      (text "\\.#")
      (text "\\.")
      (text "\\.#\\.")
      (text "\\.#")
      (text "\\.")
      (text "\\.#\\.")
stars_step = record {
  starts = spelled-NotHash;
  on_segment = becomes;
  on_hash = refl;
  on_dot = λ rest h. refl;
  on_inner = λ rest h. refl;
}
  where
    becomes :
        (w : Segment)
        → IsSegment w
        → (rest : Str)
        → replace_from (text "*") (text "[^.]+") zero (spelled w ++ rest)
          ≡ segment_pattern w ++ replace_from (text "*") (text "[^.]+") zero rest
    becomes (literal s) v rest =
        replace-Lacks b'*' [] (text "[^.]+") s rest (plain-Lacks b'*' s refl v.1)
    becomes star v rest = refl

module _ (x : ℕ) (h : (is_syntax x || (x == b'#')) ≡ true) (l : Lacks x (text "[^.]+")) where
  keeps_segment :
      (needle by : Str) (w : Segment)
      → IsSegment w
      → (rest : Str)
      → replace_from (x ∷ needle) by zero (segment_pattern w ++ rest)
        ≡ segment_pattern w ++ replace_from (x ∷ needle) by zero rest
  keeps_segment needle by w v rest =
      replace-Lacks x needle by (segment_pattern w) rest (segment-Lacks x w h v l)

star-Lacks : Lacks b'#' (text "[^.]+")
star-Lacks = (refl, (refl, (refl, (refl, (refl, tt)))))

-- `.replace(multiMultiWordsRE, '#')`
hashes_step :
    IsStep b'#'
      (text "\\.#")
      (text "#")
      segment_pattern
      segment_pattern
      (text "\\.#")
      (text "\\.")
      (text "\\.#\\.")
      (text "\\.#")
      (text "\\.")
      (text "\\.#\\.")
hashes_step = record {
  starts = pattern-NotHash;
  on_segment = keeps_segment b'#' refl star-Lacks (text "\\.#") (text "#");
  on_hash = refl;
  on_dot = λ rest h. refl;
  on_inner = λ rest h. rw h refl;
}

-- `.replace(multiWordLeadingRE, '(?:.+\\.)?')`
leading_step :
    IsStep b'#'
      (text "\\.")
      (text "(?:.+\\.)?")
      segment_pattern
      segment_pattern
      (text "\\.#")
      (text "\\.")
      (text "\\.#\\.")
      (text "\\.#")
      (text "\\.")
      (text "\\.(?:.+\\.)?")
leading_step = record {
  starts = pattern-NotHash;
  on_segment = keeps_segment b'#' refl star-Lacks (text "\\.") (text "(?:.+\\.)?");
  on_hash = refl;
  on_dot = λ rest h. refl;
  on_inner = λ rest h. refl;
}

-- `.replace(multiWordTrailingRE, '(?:\\..+)?')`
trailing_step :
    IsStep 92
      (text ".#")
      (text "(?:\\..+)?")
      segment_pattern
      segment_pattern
      (text "\\.#")
      (text "\\.")
      (text "\\.(?:.+\\.)?")
      (text "(?:\\..+)?")
      (text "\\.")
      (text "\\.(?:.+\\.)?")
trailing_step = record {
  starts = pattern-NotHash;
  on_segment =
      keeps_segment 92 refl (refl, (refl, (refl, (refl, (refl, tt))))) (text ".#")
        (text "(?:\\..+)?");
  on_hash = refl;
  on_dot = λ rest h. rw h refl;
  on_inner = λ rest h. refl;
}

-- `.replace(multiWordRE, '(?:.+)?')`
rest_step :
    IsStep b'#' []
      (text "(?:.+)?")
      segment_pattern
      segment_pattern
      (text "(?:\\..+)?")
      (text "\\.")
      (text "\\.(?:.+\\.)?")
      (text "(?:\\..+)?")
      (text "\\.")
      (text "\\.(?:.+\\.)?")
rest_step = record {
  starts = pattern-NotHash;
  on_segment = keeps_segment b'#' refl star-Lacks [] (text "(?:.+)?");
  on_hash = refl;
  on_dot = λ rest h. refl;
  on_inner = λ rest h. refl;
}

-- A `#` in front of a body is no part of two in a row.
hash_front :
    (rest : Str)
    → NotHash rest
    → replace_from (text "#\\.#") (text "#") zero (text "#\\." ++ rest)
      ≡ text "#\\." ++ replace_from (text "#\\.#") (text "#") zero rest
hash_front rest h = rw h refl

-- The pattern of a subscription, word by word.
pub pattern_of-subscription_text :
    (s : Subscription)
    → IsSubscription s
    → pattern_of (subscription_text s) ≡ subscription_pattern s
unfolding pattern_of replace_all
pattern_of-subscription_text nothing v = refl
pattern_of-subscription_text only_hash v = refl
pattern_of-subscription_text (body b) v =
    rw
      (
        replace_body _ _ _ _ _ _ _ _ _ _ _ dots_step b v,
        replace_body _ _ _ _ _ _ _ _ _ _ _ stars_step b v,
        replace_body _ _ _ _ _ _ _ _ _ _ _ hashes_step b v,
        replace_body _ _ _ _ _ _ _ _ _ _ _ leading_step b v,
        replace_body _ _ _ _ _ _ _ _ _ _ _ trailing_step b v,
        replace_body _ _ _ _ _ _ _ _ _ _ _ rest_step b v,
      )
      refl
pattern_of-subscription_text (hash_body b) v =
    rw
      (
        replace_body _ _ _ _ _ _ _ _ _ _ _ dots_step b v,
        replace_body _ _ _ _ _ _ _ _ _ _ _ stars_step b v,
        hash_front _ (body-NotHash _ _ _ _ _ _ _ _ _ _ _ hashes_step b v),
        replace_body _ _ _ _ _ _ _ _ _ _ _ hashes_step b v,
        replace_body _ _ _ _ _ _ _ _ _ _ _ leading_step b v,
        replace_body _ _ _ _ _ _ _ _ _ _ _ trailing_step b v,
        replace_body _ _ _ _ _ _ _ _ _ _ _ rest_step b v,
      )
      refl
