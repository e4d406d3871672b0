-- ===== src/Shared.antt =====
-- packages/shared/src: the contracts that the services and the apps share.
pub mod StateMachine
pub mod ContentStatus
pub mod PublicationStatus
pub mod RecommendationStatus
pub mod StationStatus
pub mod LiveSessionStatus
pub mod JobStatus
pub mod ResidentUploadStatus
