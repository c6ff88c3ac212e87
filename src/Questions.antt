-- ===== src/Questions.antt =====
-- Administrator questions and their Slack deliveries:
-- src/circled_wiki/runtime/core/open_questions.py.
pub mod Model
pub mod Operations
pub mod Deliveries
pub mod Claims
pub mod Queued
pub mod Sweeps
pub mod Finality
mod Samples
