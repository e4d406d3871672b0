-- ===== src/Api/Media/Originals.antt =====
-- One original of each content: what `createOriginalPending` leaves.
use gachinol.Prelude.{ℕ, ◌≡◌, String, true, [], ◌∷◌, string_eq, number_eq}
use gachinol.Api.Media.Assets.{
  MediaAsset, Assets, pending, media_asset_kind_eq, media_asset_status_eq, upsert, remove_all,
  find_all, reissue, is_original_of, is_stale, original_row,
}

module _ (bucket content_id key : String) where
  -- The key of an original names its content, so a row at this key is this original.
  abbrev pub OwnsKey : MediaAsset → Type 0
  OwnsKey a = a.storage_key ≡ key → (a.bucket ≡ bucket) × (is_original_of content_id a ≡ true)

  abbrev originals : Assets → Assets
  originals xs = find_all (is_original_of content_id) xs

  abbrev kept : Assets → Assets
  kept xs = remove_all (is_stale content_id key) xs

  abbrev pub OnlyOriginal : Assets → Type 0
  OnlyOriginal xs =
      (a : MediaAsset) × (find_all (is_original_of content_id) xs ≡ a ∷ [])
      × (a.storage_key ≡ key)
      × (a.status ≡ pending)
      × (is_original_of content_id a ≡ true)

  module _ (id mime_type : String) (size : ℕ) where
    abbrev fresh : MediaAsset
    fresh = original_row bucket id content_id key mime_type size

    abbrev issued : Assets → Assets
    issued xs = upsert bucket key fresh (reissue mime_type size) xs
