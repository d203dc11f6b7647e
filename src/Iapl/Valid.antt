-- ===== src/Iapl/Valid.antt =====
-- What a valid policy is, stated without the loops of `Validate` in internal/iapl/policy.go, and
-- that `Validate` accepts exactly those.
pub mod Spec
pub mod Types
pub mod Index
pub mod Bindings
pub mod Accepts
