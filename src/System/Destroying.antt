-- ===== src/System/Destroying.antt =====
-- msgs.js: `destroy` of a channel and of a bus.
use msgs.Base.{ℕ, zero, suc, nat_eq}
use msgs.Js.Text.{Str, str_eq}
use msgs.Js.Effect.{ok, pure, lift, for_each, get_state, or_type_error, out_of_fuel, ◌>>=◌, ◌>>◌}
use msgs.Js.Object.{get, keys, delete}
use msgs.Bus.Names.{Channel, created, topicized, Component, channel, bus_at, set_components}
use msgs.Bus.Taps.{destroyed}
use msgs.Dispatchers.Subscribable
use msgs.Dispatchers.Exchange
use msgs.Dispatchers.Exchange.{subscribable_topics}
use msgs.System.{
  Run, ChannelState, Dispatcher, broadcast, unicast, exchange, outer, subscriber_eq, read_bus,
  read_channel, write_channel,
}
use msgs.System.Sending.{Services}
use msgs.System.Subscribing.{write_dispatcher, write_topics}

-- The channel that a topicized one has its `destroy` from.
abbrev pub channel_under : Channel → ℕ
channel_under (created c) = c
channel_under (topicized topic ch) = channel_under ch

module _ {W : Type 0} (services : Services W) where
  open services use {destroy_outer}

  -- `if (dispatcher.destroy) { dispatcher.destroy(); }`
  unfoldable pub destroy_dispatcher : ℕ → ChannelState → Dispatcher → Run W (Unit {0})
  destroy_dispatcher c state (broadcast hs) =
      write_dispatcher c state (broadcast (Subscribable.destroy hs))
  destroy_dispatcher c state (unicast hs) =
      write_dispatcher c state (unicast (Subscribable.destroy hs))
  destroy_dispatcher c state (exchange m ts) =
      write_topics c state m (Exchange.destroy subscribable_topics ts)
  destroy_dispatcher c state (outer d) = destroy_outer d
  destroy_dispatcher c state _ = pure tt

  abbrev pub untapped : ChannelState → ChannelState
  untapped state = record state { taps = destroyed state.taps }

  -- `channel.destroy`
  unfoldable pub destroy_channel : ℕ → Run W (Unit {0})
  unfolding destroy_dispatcher destroyed
  destroy_channel c = do
    state ← read_channel c
    write_channel c (untapped state)
    destroy_dispatcher c (untapped state) state.dispatcher

  -- `if (component.destroy) { component.destroy(); }`: of a component, a channel has one
  unfoldable pub destroy_component : Component → Run W (Unit {0})
  unfolding destroy_channel
  destroy_component (channel ch) = destroy_channel (channel_under ch)
  destroy_component _ = pure tt

  abbrev pub read_component : ℕ → Str → Run W Component
  read_component b name (s, w) = (or_type_error (get (bus_at s.names b).components name)) (s, w)

  abbrev pub delete_component : ℕ → Str → Run W (Unit {0})
  delete_component b name (s, w) = (
    ok tt,
    (record s { names = set_components s.names b (delete (bus_at s.names b).components name) }, w),
  )

  unfoldable pub destroy_name : ℕ → Str → Run W (Unit {0})
  unfolding destroy_component
  destroy_name b name = do
    component ← read_component b name
    destroy_component component
    delete_component b name

  -- What `destroy` does once the children are gone.
  unfoldable pub destroy_own : ℕ → ℕ → ℕ → Run W (Unit {0})
  unfolding destroy_name for_each destroy_channel
  destroy_own b dead_letter invalid_message = do
    s ← get_state
    for_each (destroy_name b) (keys (bus_at s.0.names b).components)
    destroy_channel dead_letter
    destroy_channel invalid_message

  -- `destroy`, which the bus without a parent lacks; the fuel counts generations
  unfoldable pub destroy : ℕ → ℕ → Run W (Unit {0})
  unfolding destroy_own for_each
  destroy zero b = lift out_of_fuel
  destroy (suc n) b = do
    s ← get_state
    or_type_error (bus_at s.0.names b).parent
    bus ← read_bus b
    for_each (destroy n) bus.children
    destroy_own b bus.dead_letter_channel bus.invalid_message_channel
