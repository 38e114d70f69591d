-- ===== src/Examples.antt =====
-- Runs of the code on concrete inputs.
mod Dispatching
mod Aggregating
mod Chaining
mod Messaging
mod Naming
mod Connecting
mod Requesting
mod Adapting
mod Growing
mod Living
mod Running
mod Topics
mod Wiring
