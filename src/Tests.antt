-- ===== src/Tests.antt =====
-- Runs of the model on small inputs, and the theorems at those inputs.
mod Inputs
mod Policy
mod World
mod Engine
mod RolesV2
mod Handlers
mod Hosts
mod Checks
mod Messages
