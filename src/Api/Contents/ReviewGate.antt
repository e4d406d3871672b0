-- ===== src/Api/Contents/ReviewGate.antt =====
-- services/api/src/resident-links/resident-review.gate.ts and resident-upload-status.ts: a
-- resident's upload enters the pipeline only after a branch has approved it.
use gachinol.Prelude.{String, Bool, true, not, ◌&&◌, Option, some, ◌==◌, if◌then◌else◌, option_eq}
use gachinol.Shared.ContentStatus.{ContentStatus, content_status_eq, uploaded, processing}
use gachinol.Shared.ResidentUploadStatus.{ResidentUploadStatus, resident_upload_status_eq, approved}
use gachinol.Api.Exec.{Exec, pure, throw, gets, invalid_transition, ◌>>=◌}
use gachinol.Api.Contents.Database.{ContentOrigin, content_origin_eq, resident_link, Db}

unfoldable pub is_pipeline_entry_edge : ContentStatus → ContentStatus → Bool
is_pipeline_entry_edge from to = from == uploaded && to == processing

unfoldable pub is_pipeline_entry_allowed : ContentOrigin → Option ResidentUploadStatus → Bool
is_pipeline_entry_allowed origin upload_status =
    if not (origin == resident_link) then true else upload_status == some approved

unfoldable pub assert_resident_review_approved : String → ContentOrigin → Exec Db (Unit {0})
unfolding is_pipeline_entry_allowed
assert_resident_review_approved content_id origin =
    if not (origin == resident_link) then pure tt else do
      upload ← gets (λ db. db.resident_uploads content_id)
      if not (is_pipeline_entry_allowed origin upload) then throw invalid_transition else pure tt
