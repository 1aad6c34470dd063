-- ===== src/Config.antt =====
-- internal/config/config.go: the settings that are remembered per host.
pub mod Mode
pub mod Store
pub mod Ports
pub mod Views
mod Tests
