-- ===== src/Kcp/Delivery.antt =====
-- Two engines of kcp/src/kcp.rs and the network between them: what reaches the other
-- application, and what the sender keeps until it is acknowledged.
pub mod History
pub mod Wire
pub mod Admission
pub mod Channel
pub mod Sender
pub mod Acked
pub mod Written
pub mod Held
pub mod Retains
pub mod Refilled
pub mod Retention
pub mod Receiver
pub mod Setting
pub mod Inbox
pub mod Link
pub mod Prefix
mod Runs
