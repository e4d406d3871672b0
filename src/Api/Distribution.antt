-- ===== src/Api/Distribution.antt =====
-- services/api/src/distribution and its callers: where a content is published.
pub mod Channels
pub mod ChannelLaws
pub mod Jobs
pub mod Orchestrator
pub mod Requests
pub mod OrchestratorKeep
pub mod RequestsKeep
pub mod Refusals
