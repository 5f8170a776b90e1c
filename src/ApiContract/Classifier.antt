-- ===== src/ApiContract/Classifier.antt =====
-- The compatibility classifier (scripts/api-contract/compatibility-classifier.ts). Every function
-- there that takes the accumulator `changes` only appends to it; here it returns what it appends.
pub mod Changes
pub mod Parameters
pub mod Metadata
pub mod Values
pub mod Matched
pub mod Overloads
pub mod Classify
