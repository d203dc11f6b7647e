-- ===== src/Iapl.antt =====
-- The authorization policy of internal/iapl: documents, the policy that is made of them, its
-- validation and the schema that is generated from it.
pub mod Default
pub mod Document
pub mod Merge
pub mod Rbac
pub mod Policy
pub mod Built
pub mod Expand
pub mod Validate
pub mod Valid
pub mod Schema
