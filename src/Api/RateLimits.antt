-- ===== src/Api/RateLimits.antt =====
-- The rate limiters of services/api: chat messages per socket, telemetry requests per address.
pub mod TokenBucket
pub mod TokenBucketLaws
pub mod Chat
pub mod ChatLaws
pub mod Telemetry
pub mod TelemetryLaws
