-- ===== src/Sshx.antt =====
-- internal/sshx: the destination of the connection.
pub mod Destination
pub mod Resolve
mod Tests
