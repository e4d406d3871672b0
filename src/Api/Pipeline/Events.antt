-- ===== src/Api/Pipeline/Events.antt =====
-- pipeline.service.ts: the listeners. An event carries the job that `queue.getJob` finds for it;
-- `nothing_found` is an event whose job is gone, or one that is only logged. `safe` keeps an error
-- of one handler from the others, and `reconcilePending` and its siblings run the handlers of all
-- the finished jobs of a queue after a restart.
use gachinol.Prelude.{ℕ, String, List}
use gachinol.Api.Exec.{Exec, pure, attempt, for_each, ◌>>◌}
use gachinol.Api.Publications.Service.{PublishResultItem}
use gachinol.Api.Media.Keys.{MediaJobType}
use gachinol.Api.Pipeline.System.{AnalyzeResponse, System, Outside, pause}
use gachinol.Api.Pipeline.Media.{
  CompletedJob, FailedJob, Attempts, on_active, on_completed, on_failed, on_analysis_completed,
  on_analysis_failed,
}
use gachinol.Api.Pipeline.Distribution.{on_publish_active, on_publish_completed, on_publish_failed}

pub data Event : Type 0 where
  nothing_found : Event
  active : MediaJobType → String → String → Event
  completed : CompletedJob → Event
  failed : FailedJob → Event
  analysis_completed : String → ℕ → String → AnalyzeResponse → Event
  analysis_failed : String → String → Attempts → Event
  publish_active : List String → Event
  publish_completed : String → List PublishResultItem → Event
  publish_failed : String → List String → Attempts → Event

module _ (out : Outside) where
  abbrev pub handler : Event → Exec System (Unit {0})
  handler nothing_found = pure tt
  handler (active type content_id job_id) = on_active out type content_id job_id
  handler (completed job) = on_completed out job
  handler (failed job) = on_failed out job
  handler (analysis_completed content_id generation job_id response) =
      on_analysis_completed out content_id generation job_id response
  handler (analysis_failed content_id job_id attempts) =
      on_analysis_failed out content_id job_id attempts
  handler (publish_active publication_ids) = on_publish_active out publication_ids
  handler (publish_completed job_id results) = on_publish_completed out job_id results
  handler (publish_failed job_id publication_ids attempts) =
      on_publish_failed out job_id publication_ids attempts

  -- A listener: `safe(…, () => handler)`, and `getJob` in it.
  unfoldable pub on_event : Event → Exec System (Unit {0})
  on_event event = attempt (do pause out; handler event)

  -- The completed jobs first, then the failed ones.
  unfoldable pub reconcile : List Event → List Event → Exec System (Unit {0})
  reconcile completed_jobs failed_jobs = do
    for_each completed_jobs on_event
    for_each failed_jobs on_event
