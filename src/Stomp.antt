-- ===== src/Stomp.antt =====
-- channels/translators/stomp.js: STOMP frames. channels/dispatchers/stomp.js: the connection.
pub mod Frame
pub mod Commands
pub mod Client
pub mod Dispatcher
pub mod Server
pub mod Histories
pub mod Requests
pub mod Protocol
