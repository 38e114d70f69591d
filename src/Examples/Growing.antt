-- ===== src/Examples/Growing.antt =====
-- A program with one bus, and a child of it.
use msgs.Base.{if◌then◌else◌, ℕ, none, some, [], ◌∷◌, ◌≡◌, refl, get_elem?, length, nat_eq}
use msgs.Js.Text.{text}
use msgs.Js.Effect.{ok}
use msgs.Bus.Names.{channel, created, bus_at}
use msgs.System.{System, BusState, noop, by_ref}
use msgs.System.Factories.{construct_bus}
use msgs.System.DeadLetters.{Line, here}
use msgs.System.Construction.{with_child, child_state, broadcasting}
use msgs.System.Construction.Lines.{construct_bus-Line}
use msgs.System.Destroying.{destroy}
use msgs.System.Destruction.{is_in, shut_option}
use msgs.System.Destruction.Tree.{IsReady, gather, below, emptied_each, owned_at}
use msgs.System.Destruction.Lookups.{destroy-tree}
use msgs.Examples.Running.{services}

abbrev pub root_state : BusState
root_state = child_state 0 1

abbrev pub one_bus : System
one_bus = record {
  names =
      (record {
        parent = none;
        components =
            (text "deadLetterChannel", channel (created 1))
            ∷ (text "invalidMessageChannel", channel (created 2))
            ∷ [];
      })
      ∷ [];
  buses = root_state ∷ [];
  channels =
      record { bus = 0; dispatcher = noop; taps = none; type = [] }
      ∷ broadcasting 0 []
      ∷ broadcasting 0 []
      ∷ [];
  handlers = [];
  cache = [];
}

construct_bus-Line_example :
    (construct_bus services 1 (some 0) (one_bus, [])
      ≡ (ok 1, (with_child one_bus 0 root_state, [])))
    × (get_elem? (with_child one_bus 0 root_state).buses 1 ≡ some (child_state 1 3))
    × Line (with_child one_bus 0 root_state) 3 1 1
    × Line (with_child one_bus 0 root_state) 4 2 1
    × (length (with_child one_bus 0 root_state).names
        ≡ length (with_child one_bus 0 root_state).buses)
    × ((c r m : ℕ) → Line one_bus c r m → Line (with_child one_bus 0 root_state) c r m)
construct_bus-Line_example =
    construct_bus-Line services one_bus [] 0 0 root_state refl refl here here

-- The program with a child of the first bus and a child of that, each of which forwards its dead letters
-- and its invalid messages.
abbrev three_buses : System
unfolding with_child
three_buses =
    let s = with_child one_bus 0 root_state in
    record (with_child s 1 (child_state 1 3)) {
      buses =
          (record root_state { children = 1 ∷ [] })
          ∷ (record (child_state 1 3) { children = 2 ∷ [] })
          ∷ child_state 2 5
          ∷ [];
    }

child_ready : IsReady three_buses 1
unfolding with_child bus_at
child_ready = record {
  bus = record (child_state 1 3) { children = 2 ∷ [] };
  parent = 0;
  has_bus = refl;
  has_parent = refl;
  all_open = (
    (broadcasting 1 (by_ref 0 ∷ []), refl, tt),
    (
      (broadcasting 1 (by_ref 1 ∷ []), refl, tt),
      (
        (broadcasting 1 (by_ref 0 ∷ []), refl, tt),
        ((broadcasting 1 (by_ref 1 ∷ []), refl, tt), tt),
      ),
    ),
  );
}

grandchild_ready : IsReady three_buses 2
unfolding with_child bus_at
grandchild_ready = record {
  bus = child_state 2 5;
  parent = 1;
  has_bus = refl;
  has_parent = refl;
  all_open = (
    (broadcasting 2 (by_ref 2 ∷ []), refl, tt),
    (
      (broadcasting 2 (by_ref 3 ∷ []), refl, tt),
      (
        (broadcasting 2 (by_ref 2 ∷ []), refl, tt),
        ((broadcasting 2 (by_ref 3 ∷ []), refl, tt), tt),
      ),
    ),
  );
}

destroy-tree_example :
    (destroy services 2 1 (three_buses, []) ≡ (ok tt, (emptied_each three_buses (2 ∷ 1 ∷ []), [])))
    × ((j : ℕ)
        → (bus_at (emptied_each three_buses (2 ∷ 1 ∷ [])).names j).components
          ≡ (if is_in j (2 ∷ 1 ∷ []) then [] else (bus_at three_buses.names j).components))
    × ((c : ℕ)
        → get_elem? (emptied_each three_buses (2 ∷ 1 ∷ [])).channels c ≡ (
            if is_in c (gather (owned_at three_buses) (2 ∷ 1 ∷ []))
            then shut_option (get_elem? three_buses.channels c)
            else get_elem? three_buses.channels c))
unfolding below with_child child_ready grandchild_ready
destroy-tree_example =
    destroy-tree services three_buses [] 2 1 (child_ready, ((grandchild_ready, tt), tt))
