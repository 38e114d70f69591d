-- ===== src/Wire.antt =====
-- wire.js: the channels that a wire context declares. The resolver is wire's, and `create type name`
-- is `bus[type](name)`.

pub mod Plugin
pub mod Facet
use msgs.Js.Text.{Str, text}
use msgs.Js.Effect.{Js, Outcome, catching, continue, for_each, ok, throw, pure, ◌>>◌, Outcome-cases}
use msgs.Base.{
  Option, none, some, append-nil, List, [], ap, map, refl, ◌++◌, ◌∷◌, ◌≡◌, inl, inr, ◌∙◌,
}
use msgs.Js.Object.{Object}
use msgs.Js.Value.{Value, of_values}

-- A context's configuration: a name, a list of names, or an object with names for each type.
pub data Config : Type 0 where
  name_only : Str → Config
  name_list : List Value → Config
  by_type : Object Value → Config

-- `Array.isArray(config[type]) ? config[type] : [config[type]]`
abbrev pub as_array : Value → List Value
as_array (Value.array vs) = of_values vs
as_array v = v ∷ []

unfoldable pub arrays : Object Value → Object (List Value)
arrays [] = []
arrays ((type, v) ∷ config) = (type, as_array v) ∷ arrays config

unfoldable pub normalize_channels_config : Config → Object (List Value)
unfolding arrays
normalize_channels_config (name_only s) = (text "channel", Value.str s ∷ []) ∷ []
normalize_channels_config (name_list vs) = (text "channel", vs) ∷ []
normalize_channels_config (by_type config) = arrays config

-- The channels that a context declares, in order, each with the method of the bus that makes it.
abbrev pub declared_under : Str → Value → List (Str × Value)
declared_under type (Value.array names) = map (λ name. (type, name)) (of_values names)
declared_under type name = (type, name) ∷ []

abbrev pub declarations_of : Object Value → List (Str × Value)
declarations_of [] = []
declarations_of ((type, v) ∷ config) = declared_under type v ++ declarations_of config

abbrev pub declarations : Config → List (Str × Value)
declarations (name_only s) = (text "channel", Value.str s) ∷ []
declarations (name_list names) = map (λ name. (text "channel", name)) names
declarations (by_type config) = declarations_of config

-- The channels are created one after the other, up to the first that throws.
pub data Course {W : Type 0} (create : Str → Value → Js W (Unit {0}))
    : List (Str × Value) → W → Option Value → W → Type 0 where
  done : {w : W} → Course create [] w none w
  next :
      {type : Str} {name : Value} {ds : List (Str × Value)} {w w1 w2 : W} {r : Option Value}
      → create type name w ≡ (ok tt, w1)
      → Course create ds w1 r w2
      → Course create ((type, name) ∷ ds) w r w2
  failed :
      {type : Str} {name : Value} {ds : List (Str × Value)} {w w1 : W} {e : Value}
      → create type name w ≡ (throw e, w1)
      → Course create ((type, name) ∷ ds) w (some e) w1

-- The channels of a normal configuration, with their types, in order.
abbrev pub declared : Object (List Value) → List (Str × Value)
declared [] = []
declared ((type, names) ∷ config) = map (λ name. (type, name)) names ++ declared config

as_array-declared :
    (type : Str) (v : Value) → map (λ name. (type, name)) (as_array v) ≡ declared_under type v
as_array-declared type Value.undef = refl
as_array-declared type Value.null = refl
as_array-declared type Value.nan = refl
as_array-declared type Value.type_error = refl
as_array-declared type (Value.bool b) = refl
as_array-declared type (Value.num n) = refl
as_array-declared type (Value.str s) = refl
as_array-declared type (Value.error_object s) = refl
as_array-declared type (Value.channel_ref c) = refl
as_array-declared type (Value.handler_ref h) = refl
as_array-declared type (Value.array vs) = refl
as_array-declared type (Value.message_object p h) = refl

declared-arrays : (config : Object Value) → declared (arrays config) ≡ declarations_of config
unfolding arrays
declared-arrays [] = refl
declared-arrays ((type, v) ∷ config) = rw (as_array-declared type v, declared-arrays config) refl

declared-declarations :
    (spec : Config) → declared (normalize_channels_config spec) ≡ declarations spec
unfolding normalize_channels_config
declared-declarations (name_only s) = refl
declared-declarations (name_list names) = append-nil (map (λ name. (text "channel", name)) names)
declared-declarations (by_type config) = declared-arrays config

abbrev as_outcome : Option Value → Outcome (Unit {0})
as_outcome none = ok tt
as_outcome (some e) = throw e

module _ {W : Type 0} (create : Str → Value → Js W (Unit {0})) (resolve : Js W (Unit {0}))
    (reject : Str → Js W (Unit {0})) (message_of : Value → Str) where
  create_types : Object (List Value) → Js W (Unit {0})
  unfolding for_each
  create_types [] = pure tt
  create_types ((type, names) ∷ config) = do for_each (create type) names; create_types config

  -- The function that `channelsFactoryFactory` returns.
  unfoldable pub channels_factory : Config → Js W (Unit {0})
  unfolding create_types normalize_channels_config
  channels_factory spec =
      catching (do create_types (normalize_channels_config spec); resolve)
        (λ e. reject (text "Unable to define channels: " ++ message_of e))

  abbrev pub create_pair : Str × Value → Js W (Unit {0})
  create_pair (type, name) = create type name

  create_names :
      (type : Str) (names : List Value) (more : List (Str × Value)) (w : W)
      → (do for_each (create type) names; for_each create_pair more) w
        ≡ for_each create_pair (map (λ name. (type, name)) names ++ more) w
  unfolding for_each
  create_names type [] more w = refl
  create_names type (name ∷ names) more w = elim (Outcome-cases (create type name w).0) [
    | inl (u, p) ↦ rw p (create_names type names more (create type name w).1)
    | inr (inl (e, p)) ↦ rw p refl
    | inr (inr p) ↦ rw p refl
  ]

  create_types-declared :
      (config : Object (List Value)) (w : W)
      → create_types config w ≡ for_each create_pair (declared config) w
  unfolding create_types for_each
  create_types-declared [] w = refl
  create_types-declared ((type, names) ∷ config) w =
      ap (λ m. (do for_each (create type) names; m) w) (λ i w1. create_types-declared config w1 i)
      ∙ create_names type names (declared config) w

  define_with : Js W (Unit {0}) → Js W (Unit {0})
  define_with m =
      catching (do m; resolve) (λ e. reject (text "Unable to define channels: " ++ message_of e))

  channels_factory-flat :
      (spec : Config) (w : W)
      → channels_factory spec w
        ≡ catching
            (do for_each create_pair (declared (normalize_channels_config spec)); resolve)
            (λ e. reject (text "Unable to define channels: " ++ message_of e))
            w
  unfolding channels_factory define_with
  channels_factory-flat spec w =
      ap (λ m. define_with m w)
        (λ i w1. create_types-declared (normalize_channels_config spec) w1 i)

  for_each-Course :
      (ds : List (Str × Value)) (w w' : W) (r : Option Value)
      → Course create ds w r w'
      → for_each create_pair ds w ≡ (as_outcome r, w')
  unfolding for_each
  for_each-Course _ w _ _ done = refl
  for_each-Course _ w w' r (next {type} {name} {ds} {w1 = w1} p course) =
      rw p (for_each-Course ds w1 w' r course)
  for_each-Course _ w _ _ (failed p) = rw p refl

  -- What is done with the resolver in the end.
  abbrev pub settled : Option Value → Js W (Unit {0})
  settled none = catching resolve (λ e. reject (text "Unable to define channels: " ++ message_of e))
  settled (some e) = reject (text "Unable to define channels: " ++ message_of e)

  -- However a context declares its channels, by one name, a list of names, or a name or a list of
  -- names for each type: if the channels are created one by one, by `channel` where no type is
  -- given, type by type and name by name in the order given, up to the first creation that throws,
  -- then the resolver is resolved if none threw, and otherwise it is rejected at once with a
  -- message that says what was thrown.
  pub channels_factory-declared :
      (spec : Config) (w w' : W) (r : Option Value)
      → Course create (declarations spec) w r w'
      → channels_factory spec w ≡ settled r w'
  channels_factory-declared spec w w' r course =
      channels_factory-flat spec w
      ∙ rw (declared-declarations spec, for_each-Course (declarations spec) w w' r course)
          (settles r)
    where
      settles :
          (r : Option Value)
          → catching
              (λ (v : W). continue (λ _. resolve) (as_outcome r) w')
              (λ e. reject (text "Unable to define channels: " ++ message_of e))
              w
            ≡ settled r w'
      settles none = refl
      settles (some e) = refl
