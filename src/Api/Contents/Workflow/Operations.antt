-- ===== src/Api/Contents/Workflow/Operations.antt =====
-- content-workflow.service.ts: the methods of `ContentWorkflowService`. Between two awaits other
-- requests run: `env.between` is what they commit while a method waits. The hooks that copy and
-- remove public renditions (`PublicMediaService`) are parameters too; their errors are dropped.
use gachinol.Prelude.{
  ℕ, String, Bool, true, false, Option, none, some, not, ◌==◌, if◌then◌else◌, ◌&&◌, take, string_eq,
}
use gachinol.Shared.ContentStatus.{
  ContentStatus, content_status_eq, uploading, upload_failed, uploaded, awaiting_center_review,
  center_approved, reporter_approved, revision_requested, rejected, canceled, regenerating,
  published, archived, after_reporter_approval, content_retry_target, is_failure_status,
}
use gachinol.Api.Exec.{
  Result, ok, err, Exec, pure, lift, gets, transaction, attempt, when, or_404, forbidden,
  invalid_transition, then_check, ◌>>=◌, ◌>>◌,
}
use gachinol.Api.Users.{User, user_role_eq, reporter, center_operator}
use gachinol.Api.Contents.Database.{Text, Content, TransitionActor, user, system, Db, find_content}
use gachinol.Api.Contents.Workflow.Guards.{
  assert_allowed, require_owner_reporter, require_center_actor, require_owner_or_center,
  policy_guard,
}
use gachinol.Api.Contents.Workflow.Revisions.{create_revision_request}
use gachinol.Api.Contents.Workflow.Hop.{nothing, approval, HopOpts, no_opts, with_note, apply_hop}

pub record Environment : Type 0 where
  pub between : Db → Db
  pub sync_published_copies : String → ℕ → Exec Db (Unit {0})
  pub remove_published_copies : String → ℕ → Exec Db (Unit {0})

unfoldable pub load : String → Exec Db Content
load content_id db = (or_404 (find_content content_id db), db)

abbrev retry_target_or : ContentStatus → Option ContentStatus → ContentStatus
retry_target_or s none = s
retry_target_or s (some t) = t

-- The role check of `retry`: a reporter may retry a failed upload of his own, and nothing else.
unfoldable pub retry_guard : Content → User → Result (Unit {0})
retry_guard content u =
    if u.role == reporter
    then then_check (require_owner_reporter content u)
        (if content.status == upload_failed then ok tt else err forbidden)
    else require_center_actor u

module _ (env : Environment) where
  unfoldable pub await : Exec Db (Unit {0})
  await db = (ok tt, env.between db)

  -- One hop of a user in a transaction of its own, then the row as it is now.
  unfoldable pub commit_hop :
      Content → ContentStatus → ContentStatus → TransitionActor → HopOpts → Exec Db Content
  commit_hop content from to actor opts = do
    await
    transaction (apply_hop content from to actor opts false)
    await
    load content.id

  unfoldable pub approve_at_center : Content → User → Exec Db Content
  approve_at_center content u = do
    lift (require_center_actor u)
    lift (policy_guard content content.status center_approved (user u))
    lift (assert_allowed content.status center_approved)
    now ← gets (λ db. db.clock)
    commit_hop content content.status center_approved (user u)
        (record { note = none; mutate = approval u.id now })

  unfoldable pub approve_as_reporter : Text → Content → User → Exec Db Content
  approve_as_reporter chain_note content u = do
    lift (policy_guard content content.status reporter_approved (user u))
    lift (assert_allowed content.status reporter_approved)
    let chained = after_reporter_approval content.review_policy
    now ← gets (λ db. db.clock)
    await
    transaction (do
      apply_hop content content.status reporter_approved (user u)
          (record { note = none; mutate = approval u.id now }) false
      apply_hop content reporter_approved chained (system none) (with_note (some chain_note)) false)
    await
    load content.id

  -- `chain_note` is the text of the automatic second hop's log.
  unfoldable pub approve : Text → String → User → Exec Db Content
  unfolding approve_at_center approve_as_reporter
  approve chain_note content_id u = do
    content ← load content_id
    if content.status == awaiting_center_review
        then approve_at_center content u
        else approve_as_reporter chain_note content u

  unfoldable pub request_revision : String → User → Text → Exec Db Content
  request_revision content_id u note = do
    content ← load content_id
    lift (policy_guard content content.status revision_requested (user u))
    lift (if content.status == awaiting_center_review then require_center_actor u else ok tt)
    lift (assert_allowed content.status revision_requested)
    let requester_role = if u.role == reporter then reporter else center_operator
    await
    transaction (do
      apply_hop content content.status revision_requested (user u)
          (with_note (some (take 200 note))) false
      create_revision_request (record {
        content_id = content.id;
        requested_by_user_id = u.id;
        requester_role = requester_role;
        message = note;
        resolved_at = none;
        resolved_by_job_id = none;
      }))
    await
    load content.id

  unfoldable pub reject : String → User → Text → Exec Db Content
  reject content_id u note = do
    content ← load content_id
    lift (policy_guard content content.status rejected (user u))
    lift (if content.status == awaiting_center_review then require_center_actor u else ok tt)
    lift (assert_allowed content.status rejected)
    commit_hop content content.status rejected (user u) (with_note (some note))

  unfoldable pub cancel : String → User → Option Text → Exec Db Content
  cancel content_id u note = do
    content ← load content_id
    lift (require_owner_or_center content u)
    lift (assert_allowed content.status canceled)
    commit_hop content content.status canceled (user u) (with_note note)

  unfoldable pub regenerate : String → User → Exec Db Content
  regenerate content_id u = do
    content ← load content_id
    lift (policy_guard content content.status regenerating (user u))
    lift (assert_allowed content.status regenerating)
    commit_hop content content.status regenerating (user u) no_opts

  unfoldable pub retry : String → User → Exec Db Content
  unfolding retry_guard
  retry content_id u = do
    content ← load content_id
    lift (if is_failure_status content.status then ok tt else err invalid_transition)
    lift (retry_guard content u)
    let to = retry_target_or content.status (content_retry_target content.status)
    lift (assert_allowed content.status to)
    commit_hop content content.status to (user u) no_opts

  unfoldable pub sync_public_media_after_publish : String → ℕ → Exec Db (Unit {0})
  sync_public_media_after_publish content_id generation =
      attempt (env.sync_published_copies content_id generation)

  unfoldable pub remove_public_media_after_archive : String → ℕ → Exec Db (Unit {0})
  remove_public_media_after_archive content_id generation =
      attempt (env.remove_published_copies content_id generation)

  unfoldable pub transition : String → ContentStatus → User → Option Text → Exec Db Content
  transition content_id to u note = do
    content ← load content_id
    lift (if to == revision_requested then err forbidden else ok tt)
    lift (policy_guard content content.status to (user u))
    lift (assert_allowed content.status to)
    now ← gets (λ db. db.clock)
    let mutate = if to == center_approved then approval u.id now else nothing
    await
    transaction (
        apply_hop content content.status to (user u) (record { note = note; mutate = mutate })
          false)
    await
    when (to == published) (sync_public_media_after_publish content_id content.generation)
    when (to == archived) (remove_public_media_after_archive content_id content.generation)
    load content_id

  unfoldable pub apply_and_sync : Content → ContentStatus → String → HopOpts → Exec Db Bool
  apply_and_sync content to job_id opts = do
    await
    applied ← transaction (apply_hop content content.status to (system (some job_id)) opts true)
    await
    when (applied && to == published)
        (sync_public_media_after_publish content.id content.generation)
    pure applied

  -- The result is `applied`: false if the content has left `expected_from`.
  unfoldable pub apply_system_transition :
      String → ContentStatus → ContentStatus → String → HopOpts → Exec Db Bool
  unfolding apply_and_sync
  apply_system_transition content_id expected_from to job_id opts = do
    content ← load content_id
    if not (content.status == expected_from) then pure false else (do
      lift (policy_guard content content.status to (system (some job_id)))
      lift (assert_allowed content.status to)
      apply_and_sync content to job_id opts)

  unfoldable pub user_hop : String → User → ContentStatus → Exec Db Content
  user_hop content_id u to = do
    content ← load content_id
    lift (require_owner_or_center content u)
    lift (assert_allowed content.status to)
    commit_hop content content.status to (user u) no_opts

  unfoldable pub begin_upload : String → User → Exec Db Content
  unfolding user_hop
  begin_upload content_id u = user_hop content_id u uploading

  unfoldable pub complete_upload : String → User → Exec Db Content
  unfolding user_hop
  complete_upload content_id u = user_hop content_id u uploaded

  unfoldable pub fail_upload : String → User → Exec Db Content
  unfolding user_hop
  fail_upload content_id u = user_hop content_id u upload_failed
