-- ===== src/ApiContract/Tests.antt =====
-- Concrete inputs, and what the theorems of this component give for them.
mod Contracts
mod Signatures
mod Releases
