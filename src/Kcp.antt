-- ===== src/Kcp.antt =====
-- kcp/src/kcp.rs and kcp/src/error.rs, the ARQ protocol engine.
pub mod Segment
pub mod State
pub mod Sequence
pub mod Settings
pub mod Receive
pub mod Send
pub mod Ack
pub mod Invariant
pub mod Input
pub mod Flush
pub mod Clock
pub mod Steps
pub mod Delivery
mod Runs
