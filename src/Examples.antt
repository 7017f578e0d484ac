-- ===== src/Examples.antt =====
-- Concrete rows, runs of the code on them, and an instance of each theorem that has conditions.
pub mod Rows
mod PolicyRuns
mod RuleRuns
mod GuardRuns
mod TransitionRuns
mod WorkflowRuns
mod EngineRuns
mod CaseRuns
mod IngestRuns
mod DetectionRuns
mod ResilienceRuns
mod ReconcileRuns
pub mod VerticalRuns
