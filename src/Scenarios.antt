-- ===== src/Scenarios.antt =====
-- Runs of the modelled code on concrete inputs.
pub mod Fixtures
pub mod Dispatch
pub mod Egress
pub mod Sealed
pub mod Stored
pub mod Vault
pub mod Publish
pub mod Authorized
pub mod Operator
pub mod Wire
pub mod Console
