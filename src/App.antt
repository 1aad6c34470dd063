-- ===== src/App.antt =====
-- internal/app: the supervisor of the connection.
pub mod Supervisor
mod Tests
