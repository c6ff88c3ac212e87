-- ===== src/Governance.antt =====
-- The derived views of governance.py.
pub mod Metrics
pub mod Bounds
pub mod Claims
pub mod Supported
mod ClaimSamples
mod Samples
