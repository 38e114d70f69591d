-- ===== src/Wire/Plugin.antt =====
-- wire.js: the bus of a wire context, which stands below that of the context's parent. The resolver and
-- the registration of the bus are wire's.
use msgs.Base.{ℕ, Option, none, some, ◌⊎◌, inl, inr}
use msgs.Js.Text.{Str}
use msgs.Js.Effect.{Js, pure, ◌>>=◌, ◌>>◌}
use msgs.System.{Run}
use msgs.System.Sending.{Services}
use msgs.System.Factories.{new_bus}
use msgs.System.Destroying.{destroy}

-- The bus that `__msgs_bus` resolves to, or else the root bus.
abbrev pub or_root : ℕ → Option ℕ → ℕ
or_root root none = root
or_root root (some parent) = parent

module _ {W : Type 0} (services : Services W) (resolve : Run W (Unit {0})) where
  unfoldable pub initialize : ℕ → ℕ → Option ℕ → (ℕ → Run W (Unit {0})) → Run W ℕ
  unfolding new_bus
  initialize n root found add_instance = do
    b ← new_bus services n (or_root root found) (λ _. pure tt)
    add_instance b
    resolve
    pure b

  unfoldable pub shutdown : ℕ → ℕ → Run W (Unit {0})
  unfolding destroy
  shutdown n b = do destroy services n b; resolve

-- The resolvers of a context, with what its resolver does with a value.
module _ {W B G : Type 0} (resolve : B ⊎ G → Js W (Unit {0})) where
  unfoldable pub bus_resolver : B → Js W (Unit {0})
  bus_resolver bus = resolve (inl bus)

  -- `inbound_gateway` is that of the context's bus.
  unfoldable pub inbound_gateway_resolver : (Str → Js W G) → Str → Js W (Unit {0})
  inbound_gateway_resolver inbound_gateway name = do
    gateway ← inbound_gateway name
    resolve (inr gateway)
