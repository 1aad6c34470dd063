-- ===== src/Probe.antt =====
-- internal/probe: what listens on the remote host.
pub mod Ip
pub mod Service
mod Tests
pub mod Merge
pub mod Parse
pub mod Tools
pub mod Proc
pub mod Monitor
