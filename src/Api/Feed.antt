-- ===== src/Api/Feed.antt =====
-- services/api/src/feed: the list of published contents for subscribers.
pub mod Cursor
pub mod CursorLaws
pub mod List
pub mod Paging
pub mod Client
pub mod Walk
