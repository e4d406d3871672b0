-- ===== src/Api/Live.antt =====
-- services/api/src/live: live sessions.
pub mod Sessions
pub mod SessionLaws
pub mod Resume
