-- ===== src/Api/Pipeline.antt =====
-- services/api/src/pipeline, and the producers of the queues that it listens to.
pub mod System
pub mod Producers
pub mod Media
pub mod Distribution
pub mod Events
pub mod Keeps
pub mod ProducersKeep
pub mod HandlersKeep
pub mod EventsKeep
pub mod Runs
pub mod Quiet
pub mod Outcomes
pub mod Failures
pub mod Settled
pub mod SettledHandlers
