-- ===== src/Tasks.antt =====
-- Runtime tasks: src/circled_wiki/runtime/core/workflow.py.
pub mod Model
pub mod Store
pub mod Steps
pub mod Creation
pub mod EvidenceId
pub mod Refresh
pub mod Assessments
pub mod Prepare
pub mod OutcomeLists
pub mod Outcome
pub mod Positions
pub mod Guards
pub mod Soundness
pub mod Completion
pub mod Inputs
pub mod OpenRefresh
pub mod Requests
pub mod Approvals
pub mod Redo
mod Samples
mod RefreshSamples
