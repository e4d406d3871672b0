-- ===== src/Api/Contents/Workflow/Hop.antt =====
-- content-workflow.service.ts, `applyHop`: one transition of one content, in the caller's
-- transaction: the review gate, the compare-and-set on the status, the effects of the new status
-- and the audit log.
use gachinol.Prelude.{
  ℕ, ◌+◌, String, Bool, true, false, ◌&&◌, Option, none, some, ◌==◌, option_eq, number_eq,
  if◌then◌else◌,
}
use gachinol.Shared.ContentStatus.{ContentStatus, content_status_eq, published, regenerating}
use gachinol.Api.Exec.{Exec, pure, throw, gets, conflict, ◌>>=◌, ◌>>◌}
use gachinol.Api.Contents.Database.{
  Text, ContentColumns, Content, TransitionActor, TransitionLog, Db, update_content, create_log,
}
use gachinol.Api.Contents.ReviewGate.{is_pipeline_entry_edge, assert_resident_review_approved}

-- `HopOpts.mutate`: the further columns that the callers set.
pub data Mutate : Type 0 where
  nothing : Mutate
  approval : String → ℕ → Mutate
  failure : Text → ℕ → Mutate

pub record HopOpts : Type 0 where
  pub note : Option Text
  pub mutate : Mutate

abbrev pub no_opts : HopOpts
no_opts = record { note = none; mutate = nothing }

abbrev pub with_note : Option Text → HopOpts
with_note n = record { note = n; mutate = nothing }

abbrev apply_mutate : Mutate → ContentColumns → ContentColumns
apply_mutate nothing r = r
apply_mutate (approval user_id at) r = record r {
  approved_by_user_id = some user_id;
  approved_at = some at;
}
apply_mutate (failure message at) r = record r { last_error = some (message, at) }

-- `data`: the new status, `mutate`, and the effects of the status. `published_at` is set if the
-- content as it was loaded has none; `generation` is incremented in the row as it is now.
unfoldable pub hop_data : Content → ContentStatus → Mutate → ℕ → ContentColumns → ContentColumns
hop_data content to mutate now row =
    let row' = apply_mutate mutate row in
    record row' {
      status = to;
      published_at =
          if to == published && content.published_at == none then some now else row'.published_at;
      generation = if to == regenerating then row'.generation + 1 else row'.generation;
    }

abbrev pub hop_log :
    Content → ContentStatus → ContentStatus → TransitionActor → HopOpts → ℕ → TransitionLog
hop_log content from to actor opts now = record {
  entity_id = content.id;
  from_status = from;
  to_status = to;
  actor = actor;
  note = opts.note;
  at = now;
}

-- The gate of residents' uploads, where the edge enters the pipeline.
unfoldable pub entry_gate : Content → ContentStatus → ContentStatus → Exec Db (Unit {0})
unfolding is_pipeline_entry_edge
entry_gate content from to =
    if is_pipeline_entry_edge from to
    then assert_resident_review_approved content.id content.origin
    else pure tt

-- The result says whether the transition was applied; without `idempotent` a lost race is an error.
unfoldable pub apply_hop :
    Content → ContentStatus → ContentStatus → TransitionActor → HopOpts → Bool → Exec Db Bool
apply_hop content from to actor opts idempotent = do
  entry_gate content from to
  now ← gets (λ db. db.clock)
  count ← update_content content.id from (hop_data content to opts.mutate now)
  if count == 0
      then (if idempotent then pure false else throw conflict)
      else (do create_log (hop_log content from to actor opts now); pure true)
