-- ===== src/Api/Distribution/RequestsKeep.antt =====
-- The requests to the orchestrator keep to a discipline of the workflow.
use gachinol.Prelude.{String, List}
use gachinol.Api.Users.{User}
use gachinol.Api.Contents.Database.{Content, Db}
use gachinol.Api.Contents.Workflow.MethodsInTransaction.{
  begin_publishing-obeys, resume_publishing-obeys,
}
use gachinol.Api.Contents.Workflow.Audit.{Audited}
use gachinol.Api.Publications.Service.{Publication}
use gachinol.Api.Distribution.Jobs.{Desk}
use gachinol.Api.Distribution.Orchestrator.{
  distribute_content, distribute, retry_of_content, retry_publication,
}
use gachinol.Api.Distribution.Requests.{
  Request, distribute_request, auto_request, retry_request, retract_request, serve, serve_all,
  requeue_request,
}
use gachinol.Api.Pipeline.System.{System, Outside}
use gachinol.Api.Pipeline.Keeps.{
  PipelineDiscipline, OutsideObeys, Keeps, bind-Keeps, lift-Keeps, gets-Keeps, on_db-Keeps,
  attempt-Keeps, for_each-Keeps, paused-Keeps,
}
use gachinol.Api.Pipeline.Runs.{audit_discipline}
use gachinol.Api.Distribution.OrchestratorKeep.{
  at_row, transaction-Keeps, on_table-Keeps, with_row, create_all-Keeps, load_publication-Keeps,
  finish-Keeps, start_auto_distribution-Keeps, retract_publication-Keeps,
  requeue_failed_for_status-Keeps,
}

module _ {R : Db → Db → Type 0} {Start : Db → Type 0} {Known : Content → Db → Type 0}
    (d : PipelineDiscipline R Start Known) {out : Outside} (o : OutsideObeys R out)
    (desk : Desk) where
  distribute_content-Keeps :
      (c : Content) (u : User) (ids : List String)
      → Keeps (at_row d c) (distribute_content out desk c u ids)
  distribute_content-Keeps c u ids =
      let e = at_row d c in
      bind-Keeps e (lift-Keeps e _) λ _. bind-Keeps e (lift-Keeps e _) λ _. paused-Keeps e o (
        bind-Keeps e (gets-Keeps e _) λ accounts. bind-Keeps e (lift-Keeps e _) λ chs.
          paused-Keeps e o (
            bind-Keeps e
              (transaction-Keeps e (
                bind-Keeps e
                  (on_db-Keeps e _
                    (record { at = λ s h. (begin_publishing-obeys d.hops c u).at s h.1 }))
                  λ _. create_all-Keeps e o c u chs))
              λ rows. finish-Keeps e o desk c.id rows))

  distribute-Keeps :
      (id : String) (u : User) (ids : List String) → Keeps d (distribute out desk id u ids)
  unfolding distribute
  distribute-Keeps id u ids = paused-Keeps d o (with_row d id λ c. distribute_content-Keeps c u ids)

  retry_of_content-Keeps :
      (row : Publication) (u : User) (c : Content)
      → Keeps (at_row d c) (retry_of_content out desk row u c)
  retry_of_content-Keeps row u c =
      let e = at_row d c in
      paused-Keeps e o (
        bind-Keeps e
          (transaction-Keeps e (
            bind-Keeps e (on_table-Keeps e _) λ _.
              on_db-Keeps e _
                (record { at = λ s h. (resume_publishing-obeys d.hops c u).at s h.1 })))
          λ _. paused-Keeps e o (
            bind-Keeps e (gets-Keeps e _) λ requeued.
              bind-Keeps e (finish-Keeps e o desk c.id _) λ _. load_publication-Keeps e o row.id))

  retry_publication-Keeps : (id : String) (u : User) → Keeps d (retry_publication out desk id u)
  unfolding retry_publication
  retry_publication-Keeps id u = bind-Keeps d (load_publication-Keeps d o id) λ row.
      bind-Keeps d (lift-Keeps d _) λ _.
        bind-Keeps d (lift-Keeps d _)
          λ _. paused-Keeps d o (with_row d row.content_id λ c. retry_of_content-Keeps row u c)

  request-Keeps : (r : Request) → Keeps d (serve out desk r)
  unfolding serve
  request-Keeps (distribute_request id u ids) = attempt-Keeps d (distribute-Keeps id u ids)
  request-Keeps (auto_request c u) = attempt-Keeps d (start_auto_distribution-Keeps d o desk c u)
  request-Keeps (retry_request id u) = attempt-Keeps d (retry_publication-Keeps id u)
  request-Keeps (retract_request id u) = attempt-Keeps d (retract_publication-Keeps d o desk id u)
  request-Keeps (requeue_request c) = attempt-Keeps d (requeue_failed_for_status-Keeps d o desk c)

-- Whatever requests reach the orchestrator, those that answer an error included: the log rows added
-- are legal transitions and account for the status and the generation of every content, if the rest
-- of the server, which runs while a request waits, keeps to this too.
pub serve_all-Audited :
    (out : Outside) (desk : Desk) (requests : List Request) (s : System)
    → OutsideObeys Audited out
    → Audited s.db (serve_all out desk requests s).1.db
serve_all-Audited out desk requests s o =
    (for_each-Keeps audit_discipline requests (request-Keeps audit_discipline o desk)).at s tt
