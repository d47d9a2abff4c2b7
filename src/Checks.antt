-- ===== src/Checks.antt =====
-- The theorems at concrete inputs, and runs of the models.
pub mod Fixtures
pub mod Runs
pub mod Events
pub mod Outbox
pub mod Relaying
pub mod Consuming
pub mod Runtime
pub mod Storing
pub mod Serving
pub mod Loading
pub mod Configuring
