-- ===== src/Claims.antt =====
-- memoryos/claims: versions of claims, relationships between claims, and current truth.
pub mod Canonical
pub mod Extraction
pub mod Predicates
pub mod Truth
pub mod Versioning
