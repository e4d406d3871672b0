-- ===== src/Api/Contents/Workflow/Requests.antt =====
-- Requests to `ContentWorkflowService` as data, and their interleavings: while a request waits,
-- other requests run.
use gachinol.Prelude.{ℕ, String, Option}
use gachinol.Shared.ContentStatus.{ContentStatus}
use gachinol.Api.Exec.{Exec, transaction}
use gachinol.Api.Users.{User}
use gachinol.Api.Contents.Database.{Text, Db}
use gachinol.Api.Contents.Workflow.Hop.{HopOpts}
use gachinol.Api.Contents.Workflow.Revisions
use gachinol.Api.Contents.Workflow.Operations
use gachinol.Api.Contents.Workflow.Operations.{Environment}
use gachinol.Api.Contents.Workflow.InTransaction

pub data Request : Type 0 where
  approve : Text → String → User → Request
  request_revision : String → User → Text → Request
  reject : String → User → Text → Request
  cancel : String → User → Option Text → Request
  regenerate : String → User → Request
  retry : String → User → Request
  transition : String → ContentStatus → User → Option Text → Request
  system_transition : String → ContentStatus → ContentStatus → String → HopOpts → Request
  cancel_by_system : String → ContentStatus → Text → Request
  begin_upload complete_upload fail_upload : String → User → Request
  resolve_revision_requests : String → String → Request

-- The database after a request, whatever it answers.
unfoldable pub handle : Environment → Request → Db → Db
handle env (approve note id u) s = (Operations.approve env note id u s).1
handle env (request_revision id u note) s = (Operations.request_revision env id u note s).1
handle env (reject id u note) s = (Operations.reject env id u note s).1
handle env (cancel id u note) s = (Operations.cancel env id u note s).1
handle env (regenerate id u) s = (Operations.regenerate env id u s).1
handle env (retry id u) s = (Operations.retry env id u s).1
handle env (transition id to u note) s = (Operations.transition env id to u note s).1
handle env (system_transition id from to job opts) s =
    (Operations.apply_system_transition env id from to job opts s).1
handle env (cancel_by_system id from note) s =
    (transaction (InTransaction.cancel_by_system id from note) s).1
handle env (begin_upload id u) s = (Operations.begin_upload env id u s).1
handle env (complete_upload id u) s = (Operations.complete_upload env id u s).1
handle env (fail_upload id u) s = (Operations.fail_upload env id u s).1
handle env (resolve_revision_requests id job) s = (Revisions.resolve_revision_requests id job s).1

-- `PublicMediaService`, which this development does not model.
pub record Media : Type 0 where
  pub sync_published_copies : String → ℕ → Exec Db (Unit {0})
  pub remove_published_copies : String → ℕ → Exec Db (Unit {0})

abbrev pub environment : Media → (Db → Db) → Environment
environment media between = record {
  between = between;
  sync_published_copies = media.sync_published_copies;
  remove_published_copies = media.remove_published_copies;
}

-- A run of the server: requests, each with the run that goes on at each of its waits, and what
-- the rest of the server does in one step of its own.
pub data Schedule : Type 0 where
  done : Schedule
  serve : Request → Schedule → Schedule → Schedule
  elsewhere : (Db → Db) → Schedule → Schedule

unfoldable pub execute : Media → Schedule → Db → Db
execute media done s = s
execute media (serve request meanwhile rest) s =
    execute media rest (handle (environment media (execute media meanwhile)) request s)
execute media (elsewhere step rest) s = execute media rest (step s)

-- Every step of the rest of the server keeps to `R`.
abbrev pub ElsewhereKeeps : (Db → Db → Type 0) → Schedule → Type 0
ElsewhereKeeps R done = Unit
ElsewhereKeeps R (serve request meanwhile rest) = ElsewhereKeeps R meanwhile × ElsewhereKeeps R rest
ElsewhereKeeps R (elsewhere step rest) = ((s : Db) → R s (step s)) × ElsewhereKeeps R rest
