-- ===== src/Security.antt =====
-- The checks whose findings need an exception on record (checks/security-socket.ts,
-- checks/code-scanning.ts). A file that was read, a text that was parsed and the answers of the
-- package repo-contract are arguments.
pub mod Socket
pub mod CodeScanning
mod Tests
