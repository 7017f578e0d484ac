-- ===== src/Workflow.antt =====
-- The recovery workflow: backend/app/workflows.
pub mod Transition
pub mod Revalidation
pub mod Creation
pub mod Tables
pub mod Execution
pub mod Resolution
pub mod Reconciliation
pub mod Vertical
