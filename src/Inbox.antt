-- ===== src/Inbox.antt =====
-- The Inbox review tasks: inbox_review_queue.py and the reasons of inbox_contracts.py.
pub mod Model
pub mod Contracts
pub mod Registry
pub mod Loading
pub mod Supported
mod ContractSamples
pub mod Tasks
pub mod Transitions
pub mod Reviews
pub mod Context
pub mod Listing
pub mod Reads
pub mod Completion
pub mod Provenance
pub mod Histories
pub mod Kept
pub mod Steps
pub mod Requeued
pub mod Abstract
pub mod Refinement
mod Samples
mod ContextSamples
