-- ===== src/Protocol.antt =====
-- Package internal/protocol: the frames of the relay protocol and their codecs.
pub mod Frame
pub mod Accepts
pub mod Write
pub mod Read
pub mod Delivery
pub mod RoundTrip
pub mod Sound
pub mod Payload
pub mod PayloadRoundTrip
mod Examples
