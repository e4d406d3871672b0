-- ===== src/Api/Media/Assets.antt =====
-- services/api/src/media/media-assets.service.ts: `MediaAssetsService`, the only writer of
-- `media_assets`. The table is a list in the order
-- of creation, so the newest row is the last one. The id of a new row is a parameter, and so is
-- the bucket of the server. Live assets and the columns of the public copy are left out.
mod Rows
pub use Rows.*
use gachinol.Prelude.{
  ℕ, ◌≡◌, refl, String, Bool, true, false, not, ◌&&◌, Option, none, some, List, [], ◌∷◌, get_elem?,
  Eq, eq_of_enum, ◌==◌, string_eq, number_eq, if◌then◌else◌,
}

abbrev pub is_at : String → String → MediaAsset → Bool
is_at bucket key a = a.bucket == bucket && a.storage_key == key

-- `upsert({ where: { bucket_storageKey }, create, update })`
abbrev pub upsert : String → String → MediaAsset → (MediaAsset → MediaAsset) → Assets → Assets
upsert bucket key fresh change [] = fresh ∷ []
upsert bucket key fresh change (a ∷ rest) =
    if is_at bucket key a then change a ∷ rest else a ∷ upsert bucket key fresh change rest

abbrev pub remove_all : (MediaAsset → Bool) → Assets → Assets
remove_all p [] = []
remove_all p (a ∷ rest) = if p a then remove_all p rest else a ∷ remove_all p rest

abbrev pub or_newer : Option MediaAsset → Option MediaAsset → Option MediaAsset
or_newer none older = older
or_newer (some a) older = some a

-- `findFirst({ where, orderBy: { createdAt: 'desc' } })`
abbrev pub find_newest : (MediaAsset → Bool) → Assets → Option MediaAsset
find_newest p [] = none
find_newest p (a ∷ rest) = or_newer (find_newest p rest) (if p a then some a else none)

abbrev pub find_all : (MediaAsset → Bool) → Assets → Assets
find_all p [] = []
find_all p (a ∷ rest) = if p a then a ∷ find_all p rest else find_all p rest

abbrev unmeasured : Option ℕ → Measured
unmeasured size = record {
  size_bytes = size;
  duration_sec = none;
  width = none;
  height = none;
  bitrate_kbps = none;
  video_codec = none;
  audio_codec = none;
  rendition_label = none;
  checksum_sha256 = none;
}

abbrev pub original_row : String → String → String → String → String → ℕ → MediaAsset
original_row bucket new_id content_id key mime_type size = record {
  id = new_id;
  content_id = content_id;
  kind = original;
  status = pending;
  generation = 1;
  bucket = bucket;
  storage_key = key;
  mime_type = mime_type;
  measured = unmeasured (some size);
  created_by_job_id = none;
}

abbrev pub reissue : String → ℕ → MediaAsset → MediaAsset
reissue mime_type size a = record a {
  status = pending;
  mime_type = mime_type;
  measured = record a.measured { size_bytes = some size };
}

abbrev pub is_original_of : String → MediaAsset → Bool
is_original_of content_id a = a.content_id == content_id && a.kind == original && a.generation == 1

abbrev pub is_stale : String → String → MediaAsset → Bool
is_stale content_id key a = is_original_of content_id a && not (a.storage_key == key)

unfoldable pub create_original_pending :
    String → String → String → String → String → ℕ → Assets → Assets
create_original_pending bucket new_id content_id key mime_type size assets =
    remove_all (is_stale content_id key) (
      upsert bucket key (original_row bucket new_id content_id key mime_type size)
        (reissue mime_type size) assets)

-- `update({ where: { bucket_storageKey }, data })`; it throws if there is no such row: `none`.
abbrev pub update_at : String → String → (MediaAsset → MediaAsset) → Assets → Option Assets
update_at bucket key change [] = none
update_at bucket key change (a ∷ rest) =
    if is_at bucket key a
    then some (change a ∷ rest)
    else elim (update_at bucket key change rest) [ none ↦ none | some rest' ↦ some (a ∷ rest') ]

abbrev given : Option ℕ → Option ℕ → Option ℕ
given none old = old
given (some n) old = some n

-- `size` and `duration` are the fields of `probe`.
unfoldable pub mark_ready : String → String → Option ℕ → Option ℕ → Assets → Option Assets
mark_ready bucket key size duration assets =
    update_at bucket key
      (λ a. record a {
        status = ready;
        measured = record a.measured {
          size_bytes = given size a.size_bytes;
          duration_sec = given duration a.duration_sec;
        };
      })
      assets

abbrev pub or_unchanged : Assets → Option Assets → Assets
or_unchanged assets none = assets
or_unchanged assets (some changed) = changed

-- A missing row is no error here.
unfoldable pub mark_failed : String → String → Assets → Assets
mark_failed bucket key assets =
    or_unchanged assets (update_at bucket key (λ a. record a { status = failed }) assets)

abbrev pub output_row : String → String → ℕ → String → ProducedAsset → MediaAsset
output_row new_id content_id generation job_id out = record {
  id = new_id;
  content_id = content_id;
  kind = out.kind;
  status = ready;
  generation = generation;
  bucket = out.bucket;
  storage_key = out.storage_key;
  mime_type = out.mime_type;
  measured = out.measured;
  created_by_job_id = some job_id;
}

-- A row that is there keeps its id, its kind, its content and the job that made it.
abbrev pub refresh : ProducedAsset → MediaAsset → MediaAsset
refresh out a = record a { status = ready; measured = out.measured }

unfoldable pub upsert_output : String → String → ℕ → String → ProducedAsset → Assets → Assets
upsert_output new_id content_id generation job_id out assets =
    upsert out.bucket out.storage_key (output_row new_id content_id generation job_id out)
      (refresh out) assets

abbrev pub is_live : String → MediaAssetKind → ℕ → MediaAsset → Bool
is_live content_id kind generation a =
    a.content_id == content_id
    && a.kind == kind
    && a.generation == generation
    && not (a.status == failed)

unfoldable pub find_original : String → ℕ → Assets → Option MediaAsset
find_original content_id generation assets =
    find_newest (is_live content_id original generation) assets

unfoldable pub find_edited_master : String → ℕ → Assets → Option MediaAsset
find_edited_master content_id generation assets =
    find_newest (is_live content_id edited_master generation) assets

abbrev is_timed : MediaAsset → Bool
is_timed a = elim a.duration_sec [ none ↦ false | some n ↦ true ]

abbrev duration_of : Option MediaAsset → Option ℕ
duration_of none = none
duration_of (some a) = a.duration_sec

abbrev edited_duration : String → Option ℕ → Assets → Option ℕ
edited_duration content_id none assets = none
edited_duration content_id (some generation) assets =
    duration_of
      (find_newest (λ a. is_live content_id edited_master generation a && is_timed a) assets)

-- The edited master of the generation, if one is given, is preferred to the newest asset.
unfoldable pub find_duration_sec : String → Option ℕ → Assets → Option ℕ
find_duration_sec content_id generation assets =
    elim (edited_duration content_id generation assets) [
      | some n ↦ some n
      | none ↦ duration_of (find_newest (λ a. a.content_id == content_id && is_timed a) assets)
    ]

unfoldable pub list_for_content : String → ℕ → Assets → Assets
list_for_content content_id generation assets =
    find_all (λ a. a.content_id == content_id && a.generation == generation) assets

-- The writes of the service, with what each call passes.
pub data Write : Type 0 where
  creates_original : String → String → String → String → String → ℕ → Write
  marks_ready : String → String → Option ℕ → Option ℕ → Write
  marks_failed : String → String → Write
  upserts_output : String → String → ℕ → String → ProducedAsset → Write

-- A write that throws changes nothing.
unfoldable pub write : Write → Assets → Assets
write (creates_original bucket id content_id key mime_type size) assets =
    create_original_pending bucket id content_id key mime_type size assets
write (marks_ready bucket key size duration) assets =
    or_unchanged assets (mark_ready bucket key size duration assets)
write (marks_failed bucket key) assets = mark_failed bucket key assets
write (upserts_output id content_id generation job_id out) assets =
    upsert_output id content_id generation job_id out assets
