-- ===== src/Framed.antt =====
-- Package internal/transport/framed: a frame transport whose endpoint can be replaced.
pub mod Link
pub mod Traffic
pub mod Whole
pub mod Delivered
pub mod Owner
pub mod Replaced
mod Examples
