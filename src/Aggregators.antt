-- ===== src/Aggregators.antt =====
-- aggregators: handlers that turn several messages into one.
pub mod Batching
pub mod Correlating
