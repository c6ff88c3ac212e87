-- ===== src/Curation.antt =====
-- The curation queue: src/circled_wiki/runtime/core/curation_queue.py.
pub mod Model
pub mod Items
pub mod Queue
pub mod Refresh
pub mod Contract
pub mod Grounded
pub mod Pending
mod Samples
mod ContractSamples
