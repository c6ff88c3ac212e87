-- ===== src/Taxonomy.antt =====
-- Taxonomy proposals: src/circled_wiki/runtime/core/taxonomy_proposals.py.
pub mod Proposals
pub mod Approvals
mod Samples
