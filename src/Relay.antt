-- ===== src/Relay.antt =====
-- Package internal/relay: flow control, the relay server and the relay client.
pub mod Window
pub mod Sender
pub mod Copy
pub mod Credit
pub mod Server
pub mod Reader
pub mod Client
mod Examples
