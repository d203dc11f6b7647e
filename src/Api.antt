-- ===== src/Api.antt =====
-- The HTTP interface of internal/api: its handlers, over the operations of the engine.
pub mod Http
pub mod Mediation
pub mod Checks
pub mod Pool
pub mod Targets
pub mod MediatedV2
pub mod MediatedV1
pub mod MediatedBindings
pub mod RolesV2
pub mod RoleBindings
pub mod Roles
pub mod Assignments
pub mod Relationships
