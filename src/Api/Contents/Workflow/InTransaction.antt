-- ===== src/Api/Contents/Workflow/InTransaction.antt =====
-- content-workflow.service.ts: the methods that run inside a transaction of their caller, so that
-- nothing runs between their statements.
use gachinol.Prelude.{String, Bool, true, false, Option, none, some, not, ◌==◌, if◌then◌else◌}
use gachinol.Shared.ContentStatus.{
  ContentStatus, content_status_eq, upload_failed, center_approved, canceled, publishing,
  publish_failed,
}
use gachinol.Api.Exec.{Exec, pure, lift, gets, ◌>>=◌, ◌>>◌}
use gachinol.Api.Users.{User}
use gachinol.Api.Contents.Database.{Text, Content, user, system, Db, find_content}
use gachinol.Api.Contents.Workflow.Guards.{
  assert_allowed, require_center_actor, require_owner_or_center, policy_guard,
}
use gachinol.Api.Contents.Workflow.Hop.{no_opts, with_note, apply_hop}

abbrev pub cancel_found :
    ContentStatus → Text → Option Content → Exec Db (Bool × Option ContentStatus)
cancel_found expected_from note none = pure (false, none)
cancel_found expected_from note (some content) =
    if not (content.status == expected_from) then pure (false, some content.status) else (do
      lift (policy_guard content content.status canceled (system none))
      lift (assert_allowed content.status canceled)
      applied ← apply_hop content content.status canceled (system none) (with_note (some note)) true
      pure (applied, some (if applied then canceled else content.status)))

-- Inside the caller's transaction: nothing runs between its statements.
unfoldable pub cancel_by_system :
    String → ContentStatus → Text → Exec Db (Bool × Option ContentStatus)
cancel_by_system content_id expected_from note = do
  found ← gets (find_content content_id)
  cancel_found expected_from note found

unfoldable pub begin_publishing : Content → User → Exec Db Bool
begin_publishing content u = do
  lift (require_center_actor u)
  lift (assert_allowed center_approved publishing)
  apply_hop content center_approved publishing (user u) no_opts false

unfoldable pub resume_publishing : Content → User → Exec Db Bool
resume_publishing content u = if not (content.status == publish_failed) then pure false else (do
  lift (require_center_actor u)
  lift (assert_allowed publish_failed publishing)
  apply_hop content publish_failed publishing (user u) no_opts true)

unfoldable pub fail_upload_tx : Content → User → Option Text → Exec Db Bool
fail_upload_tx content u note = do
  lift (require_owner_or_center content u)
  lift (assert_allowed content.status upload_failed)
  apply_hop content content.status upload_failed (user u) (with_note note) false
