-- ===== src/Config.antt =====
-- internal/platform/config/config.go: the settings that the processes read from the environment.
pub mod Settings
pub mod Checks
pub mod Load
pub mod Valid
pub mod Accepted
pub mod Loaded
