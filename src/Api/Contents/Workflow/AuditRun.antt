-- ===== src/Api/Contents/Workflow/AuditRun.antt =====
-- The audit log of a whole run of the server.
use gachinol.Prelude.{◌≡◌, refl, sym, ap, ◌∙◌, String, some, List, []}
use mathlib.Core.List.{append-nil}
use gachinol.Api.Contents.Database.{Content, RevisionRequest, Db, find_content, find_content_lem}
use gachinol.Api.Contents.Workflow.Revisions.{create_revision_request, resolve_revision_requests}
use gachinol.Api.Contents.Workflow.Trail.{Trail}
use gachinol.Api.Contents.Workflow.Audit.{Audited, Audited-order, identity_row}
use gachinol.Api.Contents.Workflow.AuditHop.{Known, apply_hop-Audited}
use gachinol.Api.Contents.Workflow.Discipline.{Discipline}
use gachinol.Api.Contents.Workflow.Requests.{Media, Schedule, execute, ElsewhereKeeps}
use gachinol.Api.Contents.Workflow.Schedules.{MediaObeys, execute-obeys}

Known-load : (id : String) (c : Content) (s : Db) → find_content id s ≡ some c → Known c s
Known-load id c s e =
    let (same, found) = find_content_lem id c s e in ap identity_row (ap s.contents same ∙ found)

Audited-requests :
    (s : Db) (rows : List RevisionRequest) → Audited s (record s { revision_requests = rows })
Audited-requests s rows = record {
  fresh = [];
  logged = sym (append-nil s.logs);
  trail = λ id. Trail.done;
  legal = tt;
  same_identity = λ id. refl;
  stays_approved = λ id h. h;
}

pub audited : Discipline Audited (λ _. Unit) Known
unfolding create_revision_request resolve_revision_requests
audited = record {
  order = Audited-order;
  known_stable = λ c s t a h. a.same_identity c.id ∙ h;
  known_load = λ id c s h e. Known-load id c s e;
  hop = λ c from to actor opts idempotent k. apply_hop-Audited c from to actor opts idempotent k;
  revise = λ c row. record { at = λ s h. Audited-requests s _ };
  resolve = λ id job. record { at = λ s h. Audited-requests s _ };
}

-- Whatever requests run, in whatever interleaving: the log rows that are added are legal
-- transitions, and the status and the generation of each content are those that its log rows
-- lead to, if the hooks for public media and the rest of the server keep to this too.
pub execute-Audited :
    (media : Media) (schedule : Schedule) (s : Db)
    → MediaObeys Audited media
    → ElsewhereKeeps Audited schedule
    → Audited s (execute media schedule s)
execute-Audited media schedule s m k = execute-obeys audited (λ s t f. f tt) m schedule s k
