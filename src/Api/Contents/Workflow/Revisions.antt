-- ===== src/Api/Contents/Workflow/Revisions.antt =====
-- content-workflow.service.ts: revision requests, as `requestRevision` creates them and
-- `resolveRevisionRequests` closes them. The notes on single scenes (JSON) are left out.
use gachinol.Prelude.{
  ℕ, ◌+◌, String, Bool, true, false, ◌&&◌, Option, none, some, List, [], ◌∷◌, ◌++◌, ◌==◌, string_eq,
  if◌then◌else◌,
}
use gachinol.Api.Exec.{Exec, ok}
use gachinol.Api.Contents.Database.{RevisionRequest, Db}

unfoldable pub create_revision_request : RevisionRequest → Exec Db (Unit {0})
create_revision_request row db =
    (ok tt, record db { revision_requests = db.revision_requests ++ row ∷ [] })

abbrev is_none : Option ℕ → Bool
is_none none = true
is_none (some at) = false

-- The condition of `resolveRevisionRequests`.
abbrev pub is_open_for : String → RevisionRequest → Bool
is_open_for content_id r = r.content_id == content_id && is_none r.resolved_at

abbrev pub resolve_row : String → String → ℕ → RevisionRequest → RevisionRequest
resolve_row content_id job_id now r =
    if is_open_for content_id r
    then record r { resolved_at = some now; resolved_by_job_id = some job_id }
    else r

abbrev pub resolve_rows : String → String → ℕ → List RevisionRequest → List RevisionRequest
resolve_rows content_id job_id now [] = []
resolve_rows content_id job_id now (r ∷ rest) =
    resolve_row content_id job_id now r ∷ resolve_rows content_id job_id now rest

abbrev pub open_count : String → List RevisionRequest → ℕ
open_count content_id [] = 0
open_count content_id (r ∷ rest) =
    (if is_open_for content_id r then 1 else 0) + open_count content_id rest

-- `updateMany`, and the number of rows it changed.
unfoldable pub resolve_revision_requests : String → String → Exec Db ℕ
resolve_revision_requests content_id job_id db = (
  ok (open_count content_id db.revision_requests),
  record db { revision_requests = resolve_rows content_id job_id db.clock db.revision_requests },
)
