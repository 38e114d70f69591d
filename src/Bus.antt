-- ===== src/Bus.antt =====
-- msgs.js: the message bus.
pub mod Optional
pub mod Taps
pub mod Names
pub mod Chain
pub mod Channel
pub mod Handler
pub mod Kinds
