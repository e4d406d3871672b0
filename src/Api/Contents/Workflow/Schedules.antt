-- ===== src/Api/Contents/Workflow/Schedules.antt =====
-- A discipline that every hop keeps holds of every run of the server.
use gachinol.Prelude.{ℕ, String, refl}
use gachinol.Api.Exec.Guarantee.{Guarantee-transaction}
use gachinol.Api.Contents.Database.{Content, Db}
use gachinol.Api.Contents.Workflow.Operations.{
  Environment, begin_upload, complete_upload, fail_upload,
}
use gachinol.Api.Contents.Workflow.Discipline.{Discipline, Obeys}
use gachinol.Api.Contents.Workflow.Methods.{
  approve-obeys, request_revision-obeys, reject-obeys, cancel-obeys, regenerate-obeys, retry-obeys,
  transition-obeys, apply_system_transition-obeys, user_hop-obeys,
}
use gachinol.Api.Contents.Workflow.MethodsInTransaction.{cancel_by_system-obeys}
use gachinol.Api.Contents.Workflow.Requests
use gachinol.Api.Contents.Workflow.Requests.{
  Request, handle, Media, environment, Schedule, done, serve, elsewhere, execute, ElsewhereKeeps,
}

pub record MediaObeys (R : Db → Db → Type 0) (media : Media) : Type 0 where
  pub sync : (id : String) (g : ℕ) (s : Db) → R s (media.sync_published_copies id g s).1
  pub remove : (id : String) (g : ℕ) (s : Db) → R s (media.remove_published_copies id g s).1

module _ {R : Db → Db → Type 0} {Start : Db → Type 0} {Known : Content → Db → Type 0}
    (d : Discipline R Start Known) where
  pub handle-obeys :
      (env : Environment) (request : Request) (s : Db)
      → Obeys R env
      → Start s
      → R s (handle env request s)
  unfolding handle begin_upload complete_upload fail_upload
  handle-obeys env (Requests.approve reason id u) s o h = (approve-obeys d o reason id u).at s h
  handle-obeys env (Requests.request_revision id u reason) s o h =
      (request_revision-obeys d o id u reason).at s h
  handle-obeys env (Requests.reject id u reason) s o h = (reject-obeys d o id u reason).at s h
  handle-obeys env (Requests.cancel id u reason) s o h = (cancel-obeys d o id u reason).at s h
  handle-obeys env (Requests.regenerate id u) s o h = (regenerate-obeys d o id u).at s h
  handle-obeys env (Requests.retry id u) s o h = (retry-obeys d o id u).at s h
  handle-obeys env (Requests.transition id to u reason) s o h =
      (transition-obeys d o id to u reason).at s h
  handle-obeys env (Requests.system_transition id from to job opts) s o h =
      (apply_system_transition-obeys d o id from to job opts).at s h
  handle-obeys env (Requests.cancel_by_system id from reason) s o h =
      (Guarantee-transaction d.order _ (cancel_by_system-obeys d id from reason)).at s h
  handle-obeys env (Requests.begin_upload id u) s o h = (user_hop-obeys d o id u _ refl).at s h
  handle-obeys env (Requests.complete_upload id u) s o h = (user_hop-obeys d o id u _ refl).at s h
  handle-obeys env (Requests.fail_upload id u) s o h = (user_hop-obeys d o id u _ refl).at s h
  handle-obeys env (Requests.resolve_revision_requests id job) s o h = (d.resolve id job).at s h

  -- `relax`: what starts a request is no more than what `R` may suppose anyhow.
  module _ (relax : (s t : Db) → (Start s → R s t) → R s t) {media : Media}
      (m : MediaObeys R media) where
    pub execute-obeys :
        (schedule : Schedule) (s : Db) → ElsewhereKeeps R schedule → R s (execute media schedule s)
    unfolding execute
    execute-obeys done s k = d.order.reflexive s
    execute-obeys (serve request meanwhile rest) s k =
        d.order.transitive s _ _
          (relax s _ λ h.
            handle-obeys (environment media (execute media meanwhile)) request s
              (record {
                between = λ t. execute-obeys meanwhile t k.0;
                sync = m.sync;
                remove = m.remove;
              })
              h)
          (execute-obeys rest _ k.1)
    execute-obeys (elsewhere step rest) s k =
        d.order.transitive s (step s) _ (k.0 s) (execute-obeys rest (step s) k.1)
