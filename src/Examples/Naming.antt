-- ===== src/Examples/Naming.antt =====
-- Names of buses: bus 0 is the parent of bus 1.
use msgs.Bus.Names.{Component}
use msgs.Bus.Names.Termination.{Nearest, NamesChannels, ParentsFirst, resolve_channel-Nearest}
use msgs.Bus.Names.{Channel}
use msgs.Base.{Option}
use msgs.Bus.Names.Topic.{Arrives, send_through-Arrives}
use msgs.Js.Object.Laws.{Distinct}
use msgs.Message.{Message}
use msgs.Bus.Names.{
  Store, alias, bus_at, resolve_channel, channel, named, created, topicized, set_components,
  topic_of, with_topic, send_through,
}
use msgs.Bus.Names.Inheritance.{Inherits, here, above, alias-resolve_channel}
use msgs.Bus.Names.Keeps.{Keeps}
use msgs.Base.{
  ℕ, zero, suc, [], ◌∷◌, ◌≡◌, refl, some, none, arith, Bool-cases, inl, inr, nat_eq, ◌==◌,
}
use msgs.Js.Object.{get, has, put}
use msgs.Js.Effect.{ok, throw, out_of_fuel}
use msgs.Js.Text.{text, str_eq, Str}
use msgs.Js.Value.{Value}

abbrev two_buses : Store
two_buses =
    record { parent = none; components = [] } ∷ record { parent = some 0; components = [] } ∷ []

-- The parent has the channel 7 under the name `y`.
abbrev with_y : Store
with_y =
    record { parent = none; components = (text "y", channel (created 7)) ∷ [] }
    ∷ record { parent = some 0; components = [] }
    ∷ []

y_is_registered : alias 1 two_buses 0 (text "y") (channel (created 7)) ≡ ok with_y
unfolding alias resolve_channel has put bus_at set_components
y_is_registered = refl

y_is_inherited : Inherits with_y (text "y") 1 0 1
unfolding bus_at get
y_is_inherited = above refl refl here

alias-resolve_channel_example :
    resolve_channel 3 with_y 1 (named (text "y!t")) ≡ ok (some (topicized (text "t") (created 7)))
unfolding with_topic
alias-resolve_channel_example =
    alias-resolve_channel two_buses with_y (text "y") (text "t") (created 7) 0 1 1 1 1 (omega arith)
      (omega arith) y_is_registered y_is_inherited (omega arith)

-- The child makes `x` an alias of `y`, which it inherits, and then `y` one of `x`.
abbrev circle : Store
circle =
    record { parent = none; components = (text "y", channel (created 7)) ∷ [] }
    ∷ record {
      parent = some 0;
      components = (text "x", named (text "y")) ∷ (text "y", named (text "x")) ∷ [];
    }
    ∷ []

abbrev half_circle : Store
half_circle =
    record { parent = none; components = (text "y", channel (created 7)) ∷ [] }
    ∷ record { parent = some 0; components = (text "x", named (text "y")) ∷ [] }
    ∷ []

half_circle_is_made : alias 3 with_y 1 (text "x") (named (text "y")) ≡ ok half_circle
unfolding alias resolve_channel has put bus_at get with_topic topic_of set_components
half_circle_is_made = refl

circle_is_made : alias 4 half_circle 1 (text "y") (named (text "x")) ≡ ok circle
unfolding alias resolve_channel has put bus_at get with_topic topic_of set_components
circle_is_made = refl

-- Now neither name resolves, however long it is tried.
circle_is_endless :
    (n : ℕ)
    → (resolve_channel n circle 1 (named (text "x")) ≡ out_of_fuel)
      × (resolve_channel n circle 1 (named (text "y")) ≡ out_of_fuel)
unfolding resolve_channel get bus_at with_topic topic_of
circle_is_endless zero = (refl, refl)
circle_is_endless (suc n) = ((circle_is_endless n).1, (circle_is_endless n).0)

-- The topic of a name that no bus has is taken of `undefined`.
missing_topic_throws : resolve_channel 2 two_buses 0 (named (text "z!t")) ≡ throw Value.type_error
unfolding resolve_channel get bus_at with_topic topic_of
missing_topic_throws = refl

missing_is_undefined : resolve_channel 2 two_buses 0 (named (text "z")) ≡ ok none
unfolding resolve_channel get bus_at with_topic topic_of
missing_is_undefined = refl

abbrev bill : Message
bill = record { payload = Value.num 7; headers = (text "id", Value.str (text "0-3")) ∷ [] }

bill-Distinct : Distinct bill.headers
unfolding has
bill-Distinct = (refl, tt)

send_through-Arrives_example :
    Arrives
      (topicized (text "a") (topicized (text "b") (created 3)))
      bill
      (send_through (topicized (text "a") (topicized (text "b") (created 3))) bill)
send_through-Arrives_example =
    send_through-Arrives (topicized (text "a") (topicized (text "b") (created 3))) bill
      bill-Distinct

found_of_y :
    (s : Str) (y : Component)
    → get ((text "y", channel (created 7)) ∷ []) s ≡ some y
    → (c : Channel) × (y ≡ channel c)
unfolding get
found_of_y s y p = elim (Bool-cases (text "y" == s)) [
  | inl same ↦ (created 7, ground (arith, same, p))
  | inr apart ↦ absurd (ground (arith, apart, p))
]

with_y-NamesChannels : NamesChannels with_y (text "y")
unfolding bus_at get
with_y-NamesChannels zero y p = found_of_y (text "y") y p
with_y-NamesChannels (suc zero) y p = absurd (cc p)
with_y-NamesChannels (suc (suc b)) y p = absurd (cc p)

with_y-ParentsFirst : ParentsFirst with_y
unfolding bus_at
with_y-ParentsFirst zero p q = absurd (cc q)
with_y-ParentsFirst (suc zero) p q = ground (arith, q)
with_y-ParentsFirst (suc (suc b)) p q = absurd (cc q)

-- The second bus has the name from its parent.
resolve_channel-Nearest_example :
    (r : Option Channel) × Nearest with_y (text "y") 1 r
    × (resolve_channel 3 with_y 1 (named (text "y")) ≡ ok r)
resolve_channel-Nearest_example =
    resolve_channel-Nearest with_y (text "y") 3 1 with_y-ParentsFirst with_y-NamesChannels
      ((omega arith), tt) (omega arith)
