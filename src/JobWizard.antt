-- ===== src/JobWizard.antt =====
-- web/src/components/JobWizard.tsx: the form that the wizard collects (Form) and its steps (Steps).
pub mod Form
pub mod Steps
pub mod Selection
pub mod Keys
pub mod Complete
