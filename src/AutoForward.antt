-- ===== src/AutoForward.antt =====
-- Package internal/autoforward: which sockets in WSL are forwarded.
pub mod Proc
pub mod Listeners
pub mod Order
pub mod Kept
pub mod Chosen
pub mod Unique
mod Examples
