-- ===== src/Api/Publications.antt =====
-- services/api/src/distribution: publications of contents on channels.
pub mod Service
pub mod Report
pub mod Laws
pub mod Writes
pub mod RowRules
pub mod FirstResult
pub mod Summary
