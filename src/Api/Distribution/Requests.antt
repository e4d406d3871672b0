-- ===== src/Api/Distribution/Requests.antt =====
-- The requests to the orchestrator, with the part of a retry of a content that `requeueForStatus` of
-- services/api/src/distribution/distribution-producer.service.ts and `requeueFailedForContent` of
-- publications.service.ts do. `createdAt desc` is the table from its end.
use gachinol.Prelude.{
  String, Bool, true, false, ◌&&◌, Option, none, List, [], ◌∷◌, ◌++◌, ◌==◌, string_eq,
  if◌then◌else◌,
}
use gachinol.Shared.ContentStatus.{content_status_eq, publishing}
use gachinol.Shared.PublicationStatus.{publication_status_eq, failed}
use gachinol.Api.Exec.{Exec, pure, gets, attempt, for_each, ◌>>=◌, ◌>>◌}
use gachinol.Api.Users.{User}
use gachinol.Api.Contents.Database.{Content}
use gachinol.Api.Publications.Service.{Publication, Table, retry_to_queued}
use gachinol.Api.Distribution.Jobs.{Desk, enqueue_publish}
use gachinol.Api.Distribution.Orchestrator.{
  find_publication, one_or_none, distribute, start_auto_distribution, retry_publication,
  retract_publication,
}
use gachinol.Api.Pipeline.System.{System, Outside, pause}

-- Puts the failed publications of the content before `newer`, the newest first.
unfoldable pub list_failed_for_content : String → List Publication → Table → List Publication
list_failed_for_content id newer [] = newer
list_failed_for_content id newer (r ∷ rest) =
    list_failed_for_content id
      (if r.content_id == id && r.status == failed then r ∷ newer else newer) rest

unfoldable pub requeue_row : String → Exec System Bool
requeue_row id s =
    let (answer, rows) = retry_to_queued id failed s.publications in
    (answer, record s { publications = rows })

module _ (out : Outside) where
  abbrev pub refreshed : String → Bool → Exec System (Option Publication)
  refreshed id false = pure none
  refreshed id true = do pause out; gets (λ s. find_publication id s.publications)

  unfoldable pub requeue_rows : List Publication → Exec System (List Publication)
  requeue_rows [] = pure []
  requeue_rows (p ∷ rest) = do
    pause out
    hit ← requeue_row p.id
    row ← refreshed p.id hit
    rows ← requeue_rows rest
    pure (one_or_none row ++ rows)

  unfoldable pub requeue_failed_for_content : String → Exec System (List Publication)
  unfolding list_failed_for_content
  requeue_failed_for_content id = do
    pause out
    rows ← gets (λ s. list_failed_for_content id [] s.publications)
    requeue_rows rows

  unfoldable pub requeue_failed_for_status : Desk → Content → Exec System (Unit {0})
  requeue_failed_for_status desk content =
      if content.status == publishing
      then (do rows ← requeue_failed_for_content content.id; enqueue_publish out desk content rows)
      else pure tt

pub data Request : Type 0 where
  distribute_request : String → User → List String → Request
  auto_request : Content → User → Request
  retry_request : String → User → Request
  retract_request : String → User → Request
  requeue_request : Content → Request

-- What a request answers is for its caller alone; an error of one does not stop the next.
unfoldable pub serve : Outside → Desk → Request → Exec System (Unit {0})
unfolding distribute start_auto_distribution retry_publication retract_publication
    requeue_failed_for_status
serve out desk (distribute_request id u ids) = attempt (distribute out desk id u ids)
serve out desk (auto_request content u) = attempt (start_auto_distribution out desk content u)
serve out desk (retry_request id u) = attempt (retry_publication out desk id u)
serve out desk (retract_request id u) = attempt (retract_publication out desk id u)
serve out desk (requeue_request content) = attempt (requeue_failed_for_status out desk content)

abbrev pub serve_all : Outside → Desk → List Request → Exec System (Unit {0})
serve_all out desk requests = for_each requests (serve out desk)
