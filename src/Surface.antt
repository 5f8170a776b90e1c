-- ===== src/Surface.antt =====
-- The surface of a package besides its types (scripts/surface-contract).
pub mod Types
pub mod Cli
pub mod Action
pub mod Flatten
pub mod Schema
pub mod Classify
pub mod Stable
pub mod Run
mod Tests
