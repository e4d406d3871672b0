-- ===== src/Api/Contents/Workflow/HopOutcome.antt =====
-- When `applyHop` is applied.
use gachinol.Prelude.{
  ◌≡◌, ◌≢◌, ◌↔◌, ap, sym, ◌∙◌, some-injective, inl, inr, Bool, true, false, some, string_eq,
  option_eq, if◌then◌else◌,
}
use gachinol.Shared.ContentStatus.{ContentStatus, content_status_eq}
use gachinol.Shared.ResidentUploadStatus.{resident_upload_status_eq}
use gachinol.Api.Exec.{ok, err, conflict}
use gachinol.Api.Contents.Database.{ContentColumns, Content, content_origin_eq, TransitionActor, Db}
use gachinol.Api.Contents.Workflow.Hop.{HopOpts, apply_hop}
use gachinol.Api.Contents.Workflow.HopLaws.{GateOpen, hop_state, Refused, apply_hop-cases}

abbrev pub Ready : Content → ContentStatus → ContentStatus → Db → Type 0
Ready c from to s =
    (r : ContentColumns) × (s.contents c.id ≡ some r) × (r.status ≡ from) × GateOpen c from to s

-- A hop of a content that still has the expected status, and that the gate lets pass, is applied:
-- one row is written, with the new status, and one log row.
pub apply_hop-ready :
    (c : Content) (from to : ContentStatus) (actor : TransitionActor) (opts : HopOpts)
    (idempotent : Bool) (s : Db) (r : ContentColumns)
    → s.contents c.id ≡ some r
    → r.status ≡ from
    → GateOpen c from to s
    → apply_hop c from to actor opts idempotent s ≡ (ok true, hop_state c from to actor opts r s)
apply_hop-ready c from to actor opts idempotent s r found st gate =
    elim (apply_hop-cases c from to actor opts idempotent s) [
      | inl refused ↦ elim refused.reason [
        | inl closed ↦ elim (closed.1 gate) [ ]
        | inr lost ↦ elim (lost.1 r found st) [ ]
      ]
      | inr applied ↦
          applied.result
          ∙ ap (λ x. (ok true, hop_state c from to actor opts x s))
              (some-injective _ _ (sym applied.row_found ∙ found))
    ]

refused-false : (idempotent : Bool) → (if idempotent then ok false else err conflict) ≢ ok true
refused-false true h = cc
refused-false false h = cc

Refused-true :
    {c : Content} {from to : ContentStatus} {actor : TransitionActor} {opts : HopOpts}
    {idempotent : Bool} {s : Db}
    → Refused c from to actor opts idempotent s
    → (apply_hop c from to actor opts idempotent s).0 ≢ ok true
Refused-true {idempotent = idempotent} r h = elim r.reason [
  | inl closed ↦ cc (closed.0, h, ap (λ x. x.0) r.result)
  | inr lost ↦ refused-false idempotent (sym lost.0 ∙ ap (λ x. x.0) (sym r.result) ∙ h)
]

-- A hop is applied exactly if the content still has the expected status and, where a resident's
-- upload enters the pipeline, a branch has approved it. Otherwise nothing is written.
pub apply_hop-applied_iff :
    (c : Content) (from to : ContentStatus) (actor : TransitionActor) (opts : HopOpts)
    (idempotent : Bool) (s : Db)
    → (((apply_hop c from to actor opts idempotent s).0 ≡ ok true) ↔ Ready c from to s)
      × ((apply_hop c from to actor opts idempotent s).0 ≢ ok true
          → (apply_hop c from to actor opts idempotent s).1 ≡ s)
apply_hop-applied_iff c from to actor opts idempotent s =
    elim (apply_hop-cases c from to actor opts idempotent s) [
      | inl refused ↦ (
        (
          λ h. elim (Refused-true refused h) [ ],
          λ (r, found, st, gate).
              ap (λ x. x.0) (apply_hop-ready c from to actor opts idempotent s r found st gate),
        ),
        λ h. ap (λ x. x.1) refused.result,
      )
      | inr applied ↦ (
        (
          λ h. (applied.row, applied.row_found, applied.row_status, applied.gate),
          λ h. ap (λ x. x.0) applied.result,
        ),
        λ h. elim (h (ap (λ x. x.0) applied.result)) [ ],
      )
    ]
