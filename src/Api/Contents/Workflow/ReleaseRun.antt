-- ===== src/Api/Contents/Workflow/ReleaseRun.antt =====
-- `publishedAt` over a whole run of the server.
use gachinol.Prelude.{inl, inr, Bool, string_eq, option_eq, number_eq}
use gachinol.Shared.ContentStatus.{ContentStatus, content_status_eq}
use gachinol.Api.Exec.Guarantee.{Guarantee}
use gachinol.Api.Contents.Database.{Content, TransitionActor, Db, find_content_lem}
use gachinol.Api.Contents.Workflow.Hop.{HopOpts, apply_hop}
use gachinol.Api.Contents.Workflow.HopLaws.{apply_hop-cases}
use gachinol.Api.Contents.Workflow.Revisions.{create_revision_request, resolve_revision_requests}
use gachinol.Api.Contents.Workflow.Discipline.{Checked, Discipline}
use gachinol.Api.Contents.Workflow.Requests.{Media, Schedule, execute, ElsewhereKeeps}
use gachinol.Api.Contents.Workflow.Schedules.{MediaObeys, execute-obeys}
use gachinol.Api.Contents.Workflow.Release.{
  AllDated, KeepsDates, DatedOnce, DatedOnce-order, LoadedDated, hop-DatedOnce,
}

apply_hop-DatedOnce :
    (c : Content) (from to : ContentStatus) (actor : TransitionActor) (opts : HopOpts)
    (idempotent : Bool)
    → Checked c from to actor
    → Guarantee DatedOnce (LoadedDated c) (apply_hop c from to actor opts idempotent)
apply_hop-DatedOnce c from to actor opts idempotent k = record {
  at = λ s loaded. elim (apply_hop-cases c from to actor opts idempotent s) [
    | inl refused ↦ rw refused.result (DatedOnce-order.reflexive s)
    | inr applied ↦ hop-DatedOnce c from to actor opts idempotent s k loaded applied
  ];
}

pub dated_once : Discipline DatedOnce AllDated LoadedDated
unfolding create_revision_request resolve_revision_requests
dated_once = record {
  order = DatedOnce-order;
  known_stable = λ c s t a h. h;
  known_load =
      λ id c s inv e. let (same, found) = find_content_lem id c s e in inv id c.columns found;
  hop = λ c from to actor opts idempotent k. apply_hop-DatedOnce c from to actor opts idempotent k;
  revise = λ c row. record { at = λ s h inv. (inv, λ id r at found e. (r, found, e)) };
  resolve = λ id job. record { at = λ s h inv. (inv, λ id r at found e. (r, found, e)) };
}

-- In every run of the server a content has a publication time exactly while it is published or
-- archived, and no publication time is lost or changed, if both hold of what the rest of the
-- server does and each content was dated so at the start.
pub execute-DatedOnce :
    (media : Media) (schedule : Schedule) (s : Db)
    → MediaObeys DatedOnce media
    → ElsewhereKeeps DatedOnce schedule
    → AllDated s
    → AllDated (execute media schedule s) × KeepsDates s (execute media schedule s)
execute-DatedOnce media schedule s m k inv =
    execute-obeys dated_once (λ s t f inv. f inv inv) m schedule s k inv
