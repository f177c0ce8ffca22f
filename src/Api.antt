-- ===== src/Api.antt =====
-- web/src/api.ts: the console's reading of what the server sends.
pub mod Wire
pub mod Schedule
pub mod Policy
pub mod Retention
pub mod Roles
pub mod Errors
pub mod Inventory
pub mod Tags
pub mod Targets
pub mod Runs
