-- ===== src/Checks.antt =====
-- The checks of the contract (checks).
pub mod Shared
pub mod SurfaceContract
mod Tests
