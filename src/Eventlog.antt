-- ===== src/Eventlog.antt =====
-- Move events and their stream entries: pkg/eventlog.
pub mod Event
pub mod Stream
pub mod Relay
pub mod Examples
