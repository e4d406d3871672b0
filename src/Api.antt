-- ===== src/Api.antt =====
-- services/api/src: the server.
pub mod Exec
pub mod Users
pub mod Contents
pub mod RateLimits
pub mod Arbiter
pub mod Publications
pub mod Live
pub mod Stations
pub mod Recommendations
pub mod Media
pub mod Pipeline
pub mod Feed
pub mod Distribution
