-- ===== src/Api/Pipeline/Media.antt =====
-- pipeline.service.ts: the handlers of the media queue and of the analysis queue. A handler gets
-- what `queue.getJob` answers: no job, or the job with what the handler reads of its data. Log
-- messages, the warning on a shifted timeline among them, are left out.
mod Jobs
pub use Jobs.{
  Completed, transcoded, auto_edited, previewed, thumbnailed, CompletedJob, Attempts, FailedJob,
  allowed_or_one, reason_or,
}
unfoldable pub use Jobs.{preview_review_target, is_exhausted, last_error_note}
use gachinol.Prelude.{
  ℕ, String, Bool, true, false, not, ◌&&◌, Option, none, some, List, ◌==◌, string_eq, take, leb,
  if◌then◌else◌,
}
use gachinol.Shared.ContentStatus.{
  ContentStatus, content_status_eq, uploaded, processing, processing_failed, analyzing,
  analysis_failed, preview_generating, preview_failed, regenerating, regeneration_failed,
  awaiting_reporter_review, awaiting_center_review,
}
use gachinol.Api.Exec.{Exec, pure, gets, attempt, when, for_each, ◌>>=◌, ◌>>◌}
use gachinol.Api.Contents.Database.{
  Text, ContentOrigin, content_origin_eq, reporter_upload, urgent, ContentPriority, Content,
}
use gachinol.Api.Contents.Workflow.Hop.{failure, HopOpts, no_opts}
use gachinol.Api.Contents.Workflow.Revisions.{resolve_revision_requests}
use gachinol.Api.Media.Keys.{MediaJobType, transcode, auto_edit, preview, thumbnail}
use gachinol.Api.Media.Assets.{ProducedAsset, find_duration_sec, upsert_output}
use gachinol.Api.Pipeline.System.{
  AnalyzeResponse, System, Outside, on_db, modify, set_duration, upsert_analysis, pause,
  load_content_row, system_hop,
}
use gachinol.Api.Pipeline.Producers.{
  enqueue_auto_edit, enqueue_preview, enqueue_thumbnail, enqueue_analysis,
}

abbrev is_urgent : ContentPriority → Bool
is_urgent urgent = true
is_urgent _ = false

abbrev content_is_urgent : Option Content → Bool
content_is_urgent none = false
content_is_urgent (some c) = is_urgent c.priority

abbrev pub if_found : Option Content → (Content → Exec System (Unit {0})) → Exec System (Unit {0})
if_found none f = pure tt
if_found (some c) f = f c

abbrev pub at_status : ContentStatus → Option Content → Bool
at_status st none = false
at_status st (some c) = c.status == st

module _ (out : Outside) where
  unfoldable pub last_error_mutate : Attempts → Exec System HopOpts
  unfolding last_error_note
  last_error_mutate a =
      gets (λ s. last_error_note (reason_or out.texts.unknown_failure a.failed_reason) s.db.clock)

  unfoldable pub store_output : String → ℕ → String → ProducedAsset → Exec System (Unit {0})
  store_output content_id generation job_id asset = do
    pause out
    modify (λ s. record s {
      assets = upsert_output (out.new_id s) content_id generation job_id asset s.assets;
    })

  abbrev pub write_duration : String → Option ℕ → Exec System (Unit {0})
  write_duration content_id none = pure tt
  write_duration content_id (some n) = do pause out; on_db (set_duration content_id n)

  unfoldable pub sync_content_duration : String → Option ℕ → Exec System (Unit {0})
  sync_content_duration content_id generation = attempt (do
    pause out
    duration_sec ← gets (λ s. find_duration_sec content_id generation s.assets)
    write_duration content_id duration_sec)

  -- A content goes to the analysis, or straight to the automatic edit if it is urgent or there is no analysis.
  unfoldable pub on_transcoded : String → String → Exec System (Unit {0})
  on_transcoded content_id job_id = do
    system_hop out content_id uploaded processing job_id no_opts
    pause out
    content ← load_content_row content_id
    if not (content_is_urgent content) && out.analysis_queue
        then (do
          applied ← system_hop out content_id processing analyzing job_id no_opts
          when applied (if_found content λ c. (do enqueue_analysis out c; enqueue_thumbnail out c)))
        else (do
          applied ← system_hop out content_id processing preview_generating job_id no_opts
          when applied (
              if_found content
                λ c. (do enqueue_auto_edit out c none false; enqueue_thumbnail out c)))

  unfoldable pub on_regenerated : Content → Bool → String → Exec System (Unit {0})
  on_regenerated content reanalyze job_id = do
    let analyse = reanalyze && out.analysis_queue
    let to = if analyse then analyzing else preview_generating
    applied ← system_hop out content.id regenerating to job_id no_opts
    when applied (if analyse then enqueue_analysis out content else enqueue_preview out content)
    pause out
    on_db (resolve_revision_requests content.id job_id)
    pure tt

  unfoldable pub on_auto_edited : String → Bool → String → Exec System (Unit {0})
  on_auto_edited content_id reanalyze job_id = do
    pause out
    content ← load_content_row content_id
    if_found content λ c.
        if c.status == regenerating
        then on_regenerated c reanalyze job_id
        else when (c.status == preview_generating) (enqueue_preview out c)

  unfoldable pub on_previewed : String → String → Exec System (Unit {0})
  unfolding preview_review_target
  on_previewed content_id job_id = do
    pause out
    content ← load_content_row content_id
    if_found content λ c. (do
      system_hop out content_id preview_generating (preview_review_target c.origin) job_id no_opts
      pure tt)

  -- First the assets, then the transition.
  unfoldable pub on_work_completed : String → String → ℕ → Completed → Exec System (Unit {0})
  on_work_completed content_id job_id generation (transcoded assets) = do
    for_each assets (store_output content_id generation job_id)
    sync_content_duration content_id none
    on_transcoded content_id job_id
  on_work_completed content_id job_id generation (auto_edited reanalyze assets) = do
    for_each assets (store_output content_id generation job_id)
    sync_content_duration content_id (some generation)
    on_auto_edited content_id reanalyze job_id
  on_work_completed content_id job_id generation (previewed asset) = do
    store_output content_id generation job_id asset
    on_previewed content_id job_id
  on_work_completed content_id job_id generation (thumbnailed asset) =
      store_output content_id generation job_id asset

  unfoldable pub on_completed : CompletedJob → Exec System (Unit {0})
  unfolding on_work_completed
  on_completed job = on_work_completed job.content_id job.id job.generation job.completed

  -- `onActive` of a job.
  unfoldable pub on_active : MediaJobType → String → String → Exec System (Unit {0})
  on_active transcode content_id job_id = do
    system_hop out content_id uploaded processing job_id no_opts
    pure tt
  on_active _ content_id job_id = pure tt

  unfoldable pub on_exhausted : MediaJobType → String → String → HopOpts → Exec System (Unit {0})
  on_exhausted transcode content_id job_id last_error = do
    system_hop out content_id uploaded processing job_id no_opts
    system_hop out content_id processing processing_failed job_id last_error
    pure tt
  on_exhausted auto_edit content_id job_id last_error = do
    pause out
    content ← load_content_row content_id
    if at_status regenerating content
        then system_hop out content_id regenerating regeneration_failed job_id last_error
        else system_hop out content_id preview_generating preview_failed job_id last_error
    pure tt
  on_exhausted preview content_id job_id last_error = do
    system_hop out content_id preview_generating preview_failed job_id last_error
    pure tt
  on_exhausted thumbnail content_id job_id last_error = pure tt

  -- `onFailed`: the queue repeats a job that has attempts left.
  unfoldable pub on_failed : FailedJob → Exec System (Unit {0})
  unfolding is_exhausted
  on_failed job = if not (is_exhausted job.attempts) then pure tt else (do
    last_error ← last_error_mutate job.attempts
    on_exhausted job.type job.content_id job.id last_error)

  unfoldable pub on_analysis_completed :
      String → ℕ → String → AnalyzeResponse → Exec System (Unit {0})
  on_analysis_completed content_id generation job_id response = do
    pause out
    modify (λ s. upsert_analysis (out.new_id s) content_id generation job_id response s)
    system_hop out content_id uploaded processing job_id no_opts
    system_hop out content_id processing analyzing job_id no_opts
    applied ← system_hop out content_id analyzing preview_generating job_id no_opts
    when applied (do
      pause out
      content ← load_content_row content_id
      if_found content λ c. enqueue_auto_edit out c none false)

  unfoldable pub on_analysis_failed : String → String → Attempts → Exec System (Unit {0})
  unfolding is_exhausted
  on_analysis_failed content_id job_id attempts =
      if not (is_exhausted attempts) then pure tt else (do
        last_error ← last_error_mutate attempts
        system_hop out content_id uploaded processing job_id no_opts
        system_hop out content_id processing analyzing job_id no_opts
        system_hop out content_id analyzing analysis_failed job_id last_error
        pure tt)
