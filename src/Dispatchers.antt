-- ===== src/Dispatchers.antt =====
-- channels/dispatchers: how a channel hands a message to its handlers.
pub mod Subscribable
pub mod Broadcast
pub mod Unicast
pub mod Direct
pub mod Pollable
pub mod Exchange
