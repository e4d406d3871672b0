-- ===== src/Api/Media/Assets/Rows.antt =====
-- packages/shared/src/media/media-asset.ts and `ProducedAsset` of media-job.ts: a row of `media_assets`
-- and what the worker tells of a file that it has made.
use gachinol.Prelude.{
  ℕ, ◌≡◌, refl, String, Option, some, List, [], ◌∷◌, get_elem?, Eq, eq_of_enum, string_eq,
  number_eq,
}

pub data MediaAssetKind : Type 0 where
  original edited_master rendition preview thumbnail hls : MediaAssetKind

abbrev kind_index : MediaAssetKind → ℕ
kind_index original = 0
kind_index edited_master = 1
kind_index rendition = 2
kind_index preview = 3
kind_index thumbnail = 4
kind_index hls = 5

abbrev media_asset_kinds : List MediaAssetKind
media_asset_kinds = original ∷ edited_master ∷ rendition ∷ preview ∷ thumbnail ∷ hls ∷ []

pub kind_index_lem : (k : MediaAssetKind) → get_elem? media_asset_kinds (kind_index k) ≡ some k
kind_index_lem original = refl
kind_index_lem _ = refl

instance abbrev pub media_asset_kind_eq : Eq MediaAssetKind
media_asset_kind_eq =
    eq_of_enum
      (record { values = media_asset_kinds; index = kind_index; index_lem = kind_index_lem })

pub data MediaAssetStatus : Type 0 where
  pending ready failed deleted : MediaAssetStatus

abbrev asset_status_index : MediaAssetStatus → ℕ
asset_status_index pending = 0
asset_status_index ready = 1
asset_status_index failed = 2
asset_status_index deleted = 3

abbrev media_asset_statuses : List MediaAssetStatus
media_asset_statuses = pending ∷ ready ∷ failed ∷ deleted ∷ []

pub asset_status_index_lem :
    (s : MediaAssetStatus) → get_elem? media_asset_statuses (asset_status_index s) ≡ some s
asset_status_index_lem pending = refl
asset_status_index_lem _ = refl

instance abbrev pub media_asset_status_eq : Eq MediaAssetStatus
media_asset_status_eq = eq_of_enum (record {
  values = media_asset_statuses;
  index = asset_status_index;
  index_lem = asset_status_index_lem;
})

-- What the worker measured of a file.
pub record Measured : Type 0 where
  pub size_bytes : Option ℕ
  pub duration_sec : Option ℕ
  pub width : Option ℕ
  pub height : Option ℕ
  pub bitrate_kbps : Option ℕ
  pub video_codec : Option String
  pub audio_codec : Option String
  pub rendition_label : Option String
  pub checksum_sha256 : Option String

pub record MediaAsset : Type 0 where
  pub id : String
  pub content_id : String
  pub kind : MediaAssetKind
  pub status : MediaAssetStatus
  pub generation : ℕ
  pub bucket : String
  pub storage_key : String
  pub mime_type : String
  pub measured : Measured
  pub open measured use *
  pub created_by_job_id : Option String

abbrev pub Assets : Type 0
Assets = List MediaAsset

-- packages/shared/src/media/media-job.ts, `ProducedAsset`
pub record ProducedAsset : Type 0 where
  pub kind : MediaAssetKind
  pub bucket : String
  pub storage_key : String
  pub mime_type : String
  pub measured : Measured
