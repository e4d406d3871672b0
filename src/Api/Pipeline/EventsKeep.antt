-- ===== src/Api/Pipeline/EventsKeep.antt =====
-- A discipline of the workflow holds of every event of the pipeline.
use gachinol.Prelude.{ℕ, refl, String, List}
use gachinol.Api.Contents.Database.{Text, Content, Db}
use gachinol.Api.Publications.Service.{Table, PublishResultItem}
use gachinol.Api.Pipeline.System.{Outside}
use gachinol.Api.Pipeline.Media.{Attempts, on_completed}
use gachinol.Api.Pipeline.Distribution.{
  on_publications, resolve_result, fail_exhausted, on_publish_active, mark_publish_failed,
  judge_content, on_publish_completed, fail_content, on_publish_failed,
}
use gachinol.Api.Pipeline.Events
use gachinol.Api.Pipeline.Events.{Event, handler, on_event, reconcile}
use gachinol.Api.Pipeline.Keeps.{
  PipelineDiscipline, OutsideObeys, Keeps, bind-Keeps, pure-Keeps, gets-Keeps, attempt-Keeps,
  if-Keeps, when-Keeps, for_each-Keeps, modify-Keeps, paused-Keeps,
}
use gachinol.Api.Pipeline.HandlersKeep.{
  last_hop, on_work_completed-Keeps, on_active-Keeps, on_failed-Keeps, on_analysis_completed-Keeps,
  on_analysis_failed-Keeps,
}

module _ {R : Db → Db → Type 0} {Start : Db → Type 0} {Known : Content → Db → Type 0}
    (d : PipelineDiscipline R Start Known) {out : Outside} (o : OutsideObeys R out) where
  on_publications-Keeps : (f : ℕ → Table → Table) → Keeps d (on_publications out f)
  unfolding on_publications
  on_publications-Keeps f = paused-Keeps d o (modify-Keeps d _ (λ s. refl))

  resolve_result-Keeps : (x : PublishResultItem) → Keeps d (resolve_result out x)
  unfolding resolve_result
  resolve_result-Keeps x = bind-Keeps d (on_publications-Keeps _) λ _. on_publications-Keeps _

  fail_exhausted-Keeps : (message : Text) (id : String) → Keeps d (fail_exhausted out message id)
  unfolding fail_exhausted
  fail_exhausted-Keeps message id = resolve_result-Keeps _

  mark_publish_failed-Keeps :
      (id job : String) (message : Text) → Keeps d (mark_publish_failed out id job message)
  mark_publish_failed-Keeps id job message =
      bind-Keeps d (gets-Keeps d _) λ now. last_hop d o id _ _ job _

  judge_content-Keeps : (job id : String) → Keeps d (judge_content out job id)
  unfolding judge_content
  judge_content-Keeps job id = paused-Keeps d o (
      bind-Keeps d (gets-Keeps d _) λ summary.
        if-Keeps d _ (last_hop d o id _ _ job _)
          (when-Keeps d _ (mark_publish_failed-Keeps id job _)))

  on_publish_completed-Keeps :
      (job : String) (results : List PublishResultItem)
      → Keeps d (on_publish_completed out job results)
  unfolding on_publish_completed
  on_publish_completed-Keeps job results =
      bind-Keeps d (for_each-Keeps d results resolve_result-Keeps) λ _.
        paused-Keeps d o
          (bind-Keeps d (gets-Keeps d _) λ ids. for_each-Keeps d ids (judge_content-Keeps job))

  fail_content-Keeps :
      (job : String) (message : Text) (id : String) → Keeps d (fail_content out job message id)
  unfolding fail_content
  fail_content-Keeps job message id = paused-Keeps d o (
      bind-Keeps d (gets-Keeps d _)
        λ summary. when-Keeps d _ (mark_publish_failed-Keeps id job message))

  on_publish_failed-Keeps :
      (job : String) (ids : List String) (a : Attempts) → Keeps d (on_publish_failed out job ids a)
  unfolding on_publish_failed
  on_publish_failed-Keeps job ids a = if-Keeps d _ (pure-Keeps d tt) (
      bind-Keeps d (for_each-Keeps d ids (fail_exhausted-Keeps _)) λ _.
        paused-Keeps d o (
          bind-Keeps d (gets-Keeps d _) λ found. for_each-Keeps d found (fail_content-Keeps job _)))

  handler-Keeps : (event : Event) → Keeps d (handler out event)
  unfolding on_publish_active
  handler-Keeps Events.nothing_found = pure-Keeps d tt
  handler-Keeps (Events.active type id job) = on_active-Keeps d o type id job
  handler-Keeps (Events.completed job) =
      unfold on_completed in
      on_work_completed-Keeps d o job.content_id job.id job.generation job.completed
  handler-Keeps (Events.failed job) = on_failed-Keeps d o job
  handler-Keeps (Events.analysis_completed id g job response) =
      on_analysis_completed-Keeps d o id g job response
  handler-Keeps (Events.analysis_failed id job a) = on_analysis_failed-Keeps d o id job a
  handler-Keeps (Events.publish_active ids) = for_each-Keeps d ids (λ id. on_publications-Keeps _)
  handler-Keeps (Events.publish_completed job results) = on_publish_completed-Keeps job results
  handler-Keeps (Events.publish_failed job ids a) = on_publish_failed-Keeps job ids a

  pub on_event-Keeps : (event : Event) → Keeps d (on_event out event)
  unfolding on_event
  on_event-Keeps event = attempt-Keeps d (paused-Keeps d o (handler-Keeps event))

  pub reconcile-Keeps : (done failed : List Event) → Keeps d (reconcile out done failed)
  unfolding reconcile
  reconcile-Keeps done failed =
      bind-Keeps d (for_each-Keeps d done on_event-Keeps)
        λ _. for_each-Keeps d failed on_event-Keeps
