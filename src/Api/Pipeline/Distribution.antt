-- ===== src/Api/Pipeline/Distribution.antt =====
-- pipeline.service.ts: the handlers of the distribution queue. The statements that only touch
-- publications are those of services/api/src/distribution/publications.service.ts.
use gachinol.Prelude.{ℕ, String, Bool, not, ◌&&◌, List, [], ◌∷◌, string_eq, includes, if◌then◌else◌}
use gachinol.Shared.ContentStatus.{publishing, published, publish_failed}
use gachinol.Api.Exec.{Exec, pure, gets, when, for_each, ◌>>=◌, ◌>>◌}
use gachinol.Api.Contents.Database.{Text}
use gachinol.Api.Contents.Workflow.Hop.{no_opts}
use gachinol.Api.Publications.Service.{
  Table, PublishResultItem, begin_publishing, record_result, exhausted_result,
}
use gachinol.Api.Publications.Report.{ContentPublishSummary, summarize_for_content}
use gachinol.Api.Pipeline.System.{System, Outside, modify, pause, system_hop}
use gachinol.Api.Pipeline.Media.{Attempts, is_exhausted, reason_or, last_error_note}

abbrev add_new : List String → String → List String
add_new ids id = if includes ids id then ids else id ∷ ids

-- The contents of the publications that have one of the ids, each once.
unfoldable pub content_ids_for_publications : List String → Table → List String
content_ids_for_publications ids [] = []
content_ids_for_publications ids (r ∷ rest) =
    let others = content_ids_for_publications ids rest in
    if includes ids r.id then add_new others r.content_id else others

abbrev result_ids : List PublishResultItem → List String
result_ids [] = []
result_ids (r ∷ rest) = r.publication_id ∷ result_ids rest

abbrev pub only_failed : ContentPublishSummary → Bool
only_failed summary = summary.any_failed && not summary.any_pending

module _ (out : Outside) where
  unfoldable pub on_publications : (ℕ → Table → Table) → Exec System (Unit {0})
  on_publications f = do
    pause out
    modify (λ s. record s { publications = f s.db.clock s.publications })

  -- `publications.resolveResult`: two statements, and a wait before each.
  unfoldable pub resolve_result : PublishResultItem → Exec System (Unit {0})
  resolve_result x = do
    on_publications (λ now rows. (begin_publishing x.publication_id rows).1)
    on_publications (record_result out.texts.publish_error x)

  -- `publications.failExhausted`
  unfoldable pub fail_exhausted : Text → String → Exec System (Unit {0})
  fail_exhausted message id = resolve_result (exhausted_result id message)

  unfoldable pub on_publish_active : List String → Exec System (Unit {0})
  on_publish_active publication_ids =
      for_each publication_ids (λ id. on_publications (λ now rows. (begin_publishing id rows).1))

  abbrev pub mark_publish_failed : String → String → Text → Exec System (Unit {0})
  mark_publish_failed content_id job_id message = do
    now ← gets (λ s. s.db.clock)
    system_hop out content_id publishing publish_failed job_id (last_error_note message now)
    pure tt

  -- The verdict on one content; while one of its publications waits nothing happens.
  unfoldable pub judge_content : String → String → Exec System (Unit {0})
  judge_content job_id content_id = do
    pause out
    summary ← gets (λ s. summarize_for_content content_id s.publications)
    if summary.all_published
        then (do system_hop out content_id publishing published job_id no_opts; pure tt)
        else when (only_failed summary)
            (mark_publish_failed content_id job_id out.texts.some_channels_failed)

  unfoldable pub on_publish_completed : String → List PublishResultItem → Exec System (Unit {0})
  on_publish_completed job_id results = do
    for_each results (λ r. resolve_result r)
    pause out
    content_ids ← gets (λ s. content_ids_for_publications (result_ids results) s.publications)
    for_each content_ids (judge_content job_id)

  unfoldable pub fail_content : String → Text → String → Exec System (Unit {0})
  fail_content job_id message content_id = do
    pause out
    summary ← gets (λ s. summarize_for_content content_id s.publications)
    when (only_failed summary) (mark_publish_failed content_id job_id message)

  unfoldable pub on_publish_failed : String → List String → Attempts → Exec System (Unit {0})
  unfolding is_exhausted
  on_publish_failed job_id publication_ids attempts =
      if not (is_exhausted attempts) then pure tt else (do
        let message = reason_or out.texts.publish_exhausted attempts.failed_reason
        for_each publication_ids (λ id. fail_exhausted message id)
        pause out
        content_ids ← gets (λ s. content_ids_for_publications publication_ids s.publications)
        for_each content_ids (fail_content job_id message))
