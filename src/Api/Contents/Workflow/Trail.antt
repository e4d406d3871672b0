-- ===== src/Api/Contents/Workflow/Trail.antt =====
-- The audit trail of one content: how its status and its generation follow from the log rows.
use gachinol.Prelude.{
  ℕ, ◌+◌, ◌≡◌, ◌≢◌, String, Option, none, some, List, [], ◌∷◌, ◌++◌, ◌==◌, if◌then◌else◌,
}
use gachinol.Shared.ContentStatus.{ContentStatus, content_status_eq, regenerating}
use gachinol.Api.Contents.Database.{ContentColumns, TransitionLog, Db}

pub record View : Type 0 where
  pub status : ContentStatus
  pub generation : ℕ

abbrev pub view_row : Option ContentColumns → Option View
view_row none = none
view_row (some r) = some (record { status = r.status; generation = r.generation })

abbrev pub view_of : Db → String → Option View
view_of s id = view_row (s.contents id)

-- What a log row says of the content that it names.
abbrev pub after_log : TransitionLog → View → View
after_log l v = record {
  status = l.to_status;
  generation = if l.to_status == regenerating then v.generation + 1 else v.generation;
}

-- The rows of `id` lead from `v` to `w`: each starts at the status that the one before left.
pub data Trail (id : String) : Option View → List TransitionLog → Option View → Type 0 where
  done : {v : Option View} → Trail id v [] v
  own :
      {v : View} {l : TransitionLog} {ls : List TransitionLog} {w : Option View}
      → l.entity_id ≡ id
      → v.status ≡ l.from_status
      → Trail id (some (after_log l v)) ls w
      → Trail id (some v) (l ∷ ls) w
  other :
      {v : Option View} {l : TransitionLog} {ls : List TransitionLog} {w : Option View}
      → l.entity_id ≢ id
      → Trail id v ls w
      → Trail id v (l ∷ ls) w

pub Trail-append :
    {id : String} {u v w : Option View} (ls ms : List TransitionLog)
    → Trail id u ls v
    → Trail id v ms w
    → Trail id u (ls ++ ms) w
Trail-append _ ms done t = t
Trail-append (_ ∷ ls) ms (own e h r) t = own e h (Trail-append ls ms r t)
Trail-append (_ ∷ ls) ms (other e r) t = other e (Trail-append ls ms r t)
