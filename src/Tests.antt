-- ===== src/Tests.antt =====
-- Runs of the console at concrete inputs.
mod Schedules
mod Settings
mod Forms
mod Hooks
mod Browsing
mod Wizards
mod Points
mod Console
mod Details
mod Words
mod Nodes
mod Zones
mod Machines
mod Accounts
