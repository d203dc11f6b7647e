-- ===== src/Query.antt =====
-- The permission engine of internal/query: the relationships that it writes to SpiceDB, and its
-- operations on roles, relationships and role bindings.
pub mod Messages
pub mod Engine
pub mod Diff
pub mod Updates
pub mod Monad
pub mod Roles
pub mod RoleBindings
pub mod Relations
pub mod RolesV2
pub mod Listings
pub mod BindingLists
pub mod BindingFilters
pub mod Names
pub mod Rollback
pub mod Permission
pub mod Steps
pub mod Inversion
pub mod Reads
pub mod Transactions
pub mod Deletion
pub mod Requests
pub mod Caches
pub mod Tokens
