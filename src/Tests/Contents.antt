-- ===== src/Tests/Contents.antt =====
-- The theorems on content transitions, for one content of one reporter.
use gachinol.Prelude.{
  ◌≡◌, ◌≢◌, refl, sym, ◌∙◌, ◌↔◌, ◌⊎◌, subst, some-injective, inl, inr, Bool-cases, String, true,
  false, none, some, [], ◌∷◌, ◌==◌, string_eq, if◌then◌else◌,
}
use gachinol.Shared.ContentStatus.{
  ContentStatus, draft, uploaded, processing, analyzing, awaiting_reporter_review,
  awaiting_center_review, reporter_then_center, after_reporter_approval, can_transition_content,
}
use gachinol.Api.Exec.{ok, ◌>>=◌}
use gachinol.Api.Users.{User, reporter}
use gachinol.Api.Contents.Database.{
  reporter_upload, normal, ContentColumns, Content, system, RevisionRequest, Db, update_content,
  create_log,
}
use gachinol.Api.Contents.ReviewGate.{
  is_pipeline_entry_edge, is_pipeline_entry_allowed, assert_resident_review_approved,
}
use gachinol.Api.Contents.Workflow.Guards.{assert_allowed, policy_guard}
use gachinol.Api.Contents.Workflow.Hop.{no_opts, hop_data, entry_gate, apply_hop}
use gachinol.Api.Contents.Workflow.HopOutcome.{Ready, apply_hop-applied_iff}
use gachinol.Api.Contents.Workflow.Revisions.{open_count, resolve_revision_requests}
use gachinol.Api.Contents.Workflow.RevisionLaws.{resolve_revision_requests-closes}
use gachinol.Api.Contents.Workflow.Operations.{
  Environment, load, await, approve, apply_and_sync, apply_system_transition,
}
use gachinol.Api.Contents.Workflow.Approval.{Refusal, BothHops, approve_as_reporter-atomic}
use gachinol.Api.Contents.Workflow.ApprovalAlone.{approve-alone}
use gachinol.Api.Contents.Workflow.Redelivery.{Committed, apply_system_transition-once}
use gachinol.Api.Contents.Workflow.Requests.{
  begin_upload, cancel, complete_upload, Media, environment, Schedule, done, serve, elsewhere,
  execute, ElsewhereKeeps,
}
use gachinol.Api.Contents.Workflow.Schedules.{MediaObeys}
use gachinol.Api.Contents.Workflow.Audit.{Audited, Audited-order}
use gachinol.Api.Contents.Workflow.AuditRun.{execute-Audited}
use gachinol.Api.Contents.Workflow.Release.{Dated, AllDated, KeepsDates, DatedOnce}
use gachinol.Api.Contents.Workflow.ReleaseRun.{execute-DatedOnce}

abbrev mina : User
mina = record { id = "mina"; role = reporter }

abbrev pub row_at : ContentStatus → ContentColumns
row_at st = record {
  status = st;
  origin = reporter_upload;
  reporter_id = some "mina";
  priority = normal;
  review_policy = reporter_then_center;
  generation = 1;
  approved_by_user_id = none;
  approved_at = none;
  published_at = none;
  last_error = none;
  duration_sec = none;
}

abbrev market : ContentStatus → Content
market st = record { id = "market"; columns = row_at st }

abbrev pub db_at : ContentStatus → Db
db_at st = record {
  contents = λ k. if "market" == k then some (row_at st) else none;
  resident_uploads = λ k. none;
  revision_requests = [];
  logs = [];
  clock = 7;
}

abbrev pub quiet_media : Media
quiet_media = record {
  sync_published_copies = λ id g s. (ok tt, s);
  remove_published_copies = λ id g s. (ok tt, s);
}

abbrev pub quiet : Environment
quiet = environment quiet_media (λ s. s)

-- While the upload begins another request cancels the content.
abbrev day : Schedule
day =
    serve (begin_upload "market" mina) (serve (cancel "market" mina none) done done)
      (elsewhere (λ s. s) (serve (complete_upload "market" mina) done done))

quiet-Audited : MediaObeys Audited quiet_media
quiet-Audited = record {
  sync = λ id g s. Audited-order.reflexive s;
  remove = λ id g s. Audited-order.reflexive s;
}

day-Audited : ElsewhereKeeps Audited day
day-Audited = ((tt, tt), ((λ s. Audited-order.reflexive s), (tt, tt)))

execute-Audited_example : Audited (db_at draft) (execute quiet_media day (db_at draft))
execute-Audited_example = execute-Audited quiet_media day (db_at draft) quiet-Audited day-Audited

pub same-DatedOnce : (s : Db) → DatedOnce s s
same-DatedOnce s inv = (inv, λ id r at found e. (r, found, e))

quiet-DatedOnce : MediaObeys DatedOnce quiet_media
quiet-DatedOnce = record { sync = λ id g s. same-DatedOnce s; remove = λ id g s. same-DatedOnce s }

day-DatedOnce : ElsewhereKeeps DatedOnce day
day-DatedOnce = ((tt, tt), ((λ s. same-DatedOnce s), (tt, tt)))

pub draft-Dated : AllDated (db_at draft)
draft-Dated id r found = elim (Bool-cases ("market" == id)) [
  | inl same ↦ subst Dated (some-injective _ _ (rw same at found)) refl
  | inr other ↦ cc (rw other at found)
]

execute-DatedOnce_example :
    AllDated (execute quiet_media day (db_at draft))
    × KeepsDates (db_at draft) (execute quiet_media day (db_at draft))
execute-DatedOnce_example =
    execute-DatedOnce quiet_media day (db_at draft) quiet-DatedOnce day-DatedOnce draft-Dated

apply_hop-applied_iff_example :
    (((apply_hop
          (market uploaded)
          uploaded
          processing
          (system none)
          no_opts
          false
          (db_at uploaded)).0
        ≡ ok true)
      ↔ Ready (market uploaded) uploaded processing (db_at uploaded))
    × ((apply_hop
            (market uploaded)
            uploaded
            processing
            (system none)
            no_opts
            false
            (db_at uploaded)).0
          ≢ ok true
        → (apply_hop
            (market uploaded)
            uploaded
            processing
            (system none)
            no_opts
            false
            (db_at uploaded)).1
          ≡ db_at uploaded)
apply_hop-applied_iff_example =
    apply_hop-applied_iff (market uploaded) uploaded processing (system none) no_opts false
      (db_at uploaded)

approve_as_reporter-atomic_example :
    Refusal quiet [] (market awaiting_reporter_review) mina (db_at awaiting_reporter_review)
    ⊎ BothHops quiet [] (market awaiting_reporter_review) mina (db_at awaiting_reporter_review)
approve_as_reporter-atomic_example =
    approve_as_reporter-atomic quiet [] (market awaiting_reporter_review) mina
      (db_at awaiting_reporter_review)

approve-alone_example :
    (approve quiet [] "market" mina (db_at awaiting_reporter_review)).0
    ≡ ok (record {
      id = "market";
      columns = record (row_at awaiting_reporter_review) {
        status = after_reporter_approval reporter_then_center;
        approved_by_user_id = some "mina";
        approved_at = some 7;
      };
    })
approve-alone_example =
    approve-alone quiet [] mina (db_at awaiting_reporter_review) "market"
      (row_at awaiting_reporter_review) (λ t. refl) refl refl refl refl

apply_system_transition-once_example :
    (let t =
        (apply_system_transition quiet "market" processing analyzing "job-1" no_opts
          (db_at processing)).1 in
      Committed quiet "market" analyzing t
      × (apply_system_transition quiet "market" processing analyzing "job-1" no_opts t
          ≡ (ok false, t)))
unfolding apply_system_transition apply_and_sync apply_hop entry_gate is_pipeline_entry_edge
    assert_resident_review_approved is_pipeline_entry_allowed hop_data update_content create_log
    ◌>>=◌ load await policy_guard assert_allowed can_transition_content
apply_system_transition-once_example =
    apply_system_transition-once quiet (λ id g s. refl) "market" "job-1" processing analyzing
      no_opts (db_at processing) (λ u at differs. (at.0, at.1, λ e. differs (sym e ∙ at.2))) refl

abbrev asked : String → RevisionRequest
asked content_id = record {
  content_id = content_id;
  requested_by_user_id = "mina";
  requester_role = reporter;
  message = [];
  resolved_at = none;
  resolved_by_job_id = none;
}

abbrev db_asked : Db
db_asked = record (db_at awaiting_center_review) {
  revision_requests = asked "market" ∷ asked "harbour" ∷ asked "market" ∷ [];
}

resolve_revision_requests-closes_example :
    (let t = (resolve_revision_requests "market" "job-1" db_asked).1 in
      (open_count "market" t.revision_requests ≡ 0)
      × ((other : String)
          → other ≢ "market"
          → open_count other t.revision_requests ≡ open_count other db_asked.revision_requests)
      × (resolve_revision_requests "market" "job-2" (record t { clock = 9 })
          ≡ (ok 0, record t { clock = 9 })))
resolve_revision_requests-closes_example =
    resolve_revision_requests-closes "market" "job-1" "job-2" 9 db_asked
