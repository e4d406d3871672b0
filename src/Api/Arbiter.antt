-- ===== src/Api/Arbiter.antt =====
-- services/api/src/arbiter: the media queue is paused while the DCP pipeline uses the host.
pub mod Policy
pub mod Gate
pub mod GateLaws
pub mod PolicyLaws
pub mod Startup
