-- ===== src/Attach.antt =====
-- Package internal/transport/attach: who owns a reconnectable transport, and the wire protocol that
-- hands the ownership over.
pub mod Registry
pub mod Ownership
pub mod Generations
pub mod Payload
pub mod PayloadRoundTrip
pub mod Summary
pub mod Message
pub mod Handshake
mod Examples
