-- ===== src/Api/Media.antt =====
-- services/api/src/media: the records of stored media.
pub mod Keys
pub mod Assets
pub mod AssetLaws
pub mod Originals
