-- ===== src/Config.antt =====
-- backend/internal/platform/config/config.go: the configuration of the process from its environment.
pub mod Level
pub mod Address
pub mod Values
pub mod Load
pub mod Numbers
pub mod Ranges
