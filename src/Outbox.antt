-- ===== src/Outbox.antt =====
-- backend/internal/platform/outbox and the outbox table of backend/migrations: the store of
-- integration events, the repository over it, and the relay that publishes from it.
pub mod Row
pub mod Rows
pub mod Age
pub mod Schema
pub mod Repository
pub mod Histories
pub mod Guards
pub mod Relay
pub mod Exclusive
pub mod Limits
pub mod Leases
pub mod Marking
pub mod Operations
pub mod Inserting
pub mod Transitions
pub mod Claiming
