-- ===== src/Client.antt =====
-- src/telemetry.c: what a client does to create and send a record. Allocation succeeds.
pub mod Values
pub mod Headers
pub mod Lines
pub mod Words
pub mod Attributes
pub mod Fields
pub mod Creation
pub mod Socket
pub mod Writing
pub mod Sending
pub mod EventId
