-- ===== src/Tunnel.antt =====
-- internal/tunnel: local listeners kept in step with the services of the remote host.
pub mod Scheme
pub mod PortSet
pub mod Policy
pub mod Alloc
pub mod Forward
pub mod Manager
mod Tests
