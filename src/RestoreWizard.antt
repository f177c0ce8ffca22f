-- ===== src/RestoreWizard.antt =====
-- web/src/components/RestoreWizard.tsx: the destination that the wizard collects (Destination), its
-- handlers and effects (Steps).
pub mod Destination
pub mod Steps
pub mod Confirmed
pub mod Reset
