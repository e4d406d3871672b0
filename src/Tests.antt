-- ===== src/Tests.antt =====
-- The theorems of the library at concrete inputs.
pub mod Contents
pub mod Statuses
pub mod Services
pub mod Pipeline
pub mod Feed
pub mod Distribution
pub mod Orchestrator
pub mod Weeks
pub mod Publications
