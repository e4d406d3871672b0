-- ===== src/Api/Contents.antt =====
-- services/api/src/contents and the review gate of services/api/src/resident-links.
pub mod Database
pub mod ReviewGate
pub mod Workflow
