-- ===== src/Api/Recommendations/Workflow.antt =====
-- services/api/src/recommendations/recommendation-workflow.service.ts:
-- `RecommendationWorkflowService`. Its methods run in the transaction of their caller, but for
-- `applySystemTransition`, which waits for one of its own: `between` is what other requests commit then.
use gachinol.Prelude.{
  ℕ, ◌+◌, String, Bool, true, false, not, Option, none, some, List, [], ◌∷◌, ◌++◌, ◌==◌, string_eq,
  take, if◌then◌else◌,
}
use gachinol.Shared.RecommendationStatus.{
  RecommendationStatus, recommendation_status_eq, generating, generation_failed, pending_review,
  revision_requested, regenerating, approved, can_transition_recommendation,
}
use gachinol.Api.Exec.{
  Result, ok, Exec, pure, throw, lift, gets, transaction, or_404, require, invalid_transition,
  conflict, ◌>>=◌, ◌>>◌,
}
use gachinol.Api.Users.{User}
use gachinol.Api.Contents.Database.{Text, TransitionActor, user, system}
use gachinol.Api.Contents.Workflow.Guards.{require_center_actor}

-- A row of `weekly_recommendations`, but for its key: the columns that the workflow uses.
pub record Columns : Type 0 where
  pub status : RecommendationStatus
  pub generation : ℕ
  pub approved_by_user_id : Option String
  pub approved_at : Option ℕ

pub record Recommendation : Type 0 where
  pub id : String
  pub columns : Columns
  pub open columns use *

pub record RecommendationLog : Type 0 where
  pub entity_id : String
  pub from_status : RecommendationStatus
  pub to_status : RecommendationStatus
  pub actor : TransitionActor
  pub note : Option Text
  pub at : ℕ

pub record RecommendationDb : Type 0 where
  pub rows : String → Option Columns
  pub logs : List RecommendationLog
  pub clock : ℕ

abbrev with_id : String → Option Columns → Option Recommendation
with_id id none = none
with_id id (some r) = some (record { id = id; columns = r })

unfoldable pub load_recommendation : String → Exec RecommendationDb Recommendation
load_recommendation id db = (or_404 (with_id id (db.rows id)), db)

pub record HopExtras : Type 0 where
  pub note : Option Text
  pub approval : Option (String × ℕ)

abbrev pub no_extras : HopExtras
no_extras = record { note = none; approval = none }

abbrev apply_approval : Option (String × ℕ) → Columns → Columns
apply_approval none r = r
apply_approval (some (id, at)) r = record r { approved_by_user_id = some id; approved_at = some at }

abbrev pub columns_after : RecommendationStatus → HopExtras → Columns → Columns
columns_after to opts r =
    let r' = apply_approval opts.approval r in
    record r' {
      status = to;
      generation = if to == regenerating then r'.generation + 1 else r'.generation;
    }

abbrev pub cas_columns :
    String
    → RecommendationStatus
    → (Columns → Columns)
    → RecommendationDb
    → Option Columns
    → Bool × RecommendationDb
cas_columns id from change db none = (false, db)
cas_columns id from change db (some r) =
    if r.status == from
    then (true, record db { rows = λ k. if id == k then some (change r) else db.rows k })
    else (false, db)

unfoldable pub update_columns :
    String → RecommendationStatus → (Columns → Columns) → Exec RecommendationDb Bool
update_columns id from change db =
    let (hit, db') = cas_columns id from change db (db.rows id) in (ok hit, db')

unfoldable pub create_recommendation_log : RecommendationLog → Exec RecommendationDb (Unit {0})
create_recommendation_log row db = (ok tt, record db { logs = db.logs ++ row ∷ [] })

unfoldable pub apply_recommendation_hop :
    Recommendation
    → RecommendationStatus
    → RecommendationStatus
    → TransitionActor
    → HopExtras
    → Bool
    → Exec RecommendationDb Bool
apply_recommendation_hop row from to actor opts idempotent = do
  now ← gets (λ db. db.clock)
  hit ← update_columns row.id from (columns_after to opts)
  if not hit then (if idempotent then pure false else throw conflict) else (do
    create_recommendation_log (record {
      entity_id = row.id;
      from_status = from;
      to_status = to;
      actor = actor;
      note = opts.note;
      at = now;
    })
    pure true)

abbrev pub allowed : RecommendationStatus → RecommendationStatus → Result (Unit {0})
allowed from to = require (can_transition_recommendation from to) invalid_transition

unfoldable pub hop_of_user :
    Recommendation
    → RecommendationStatus
    → RecommendationStatus
    → User
    → HopExtras
    → Exec RecommendationDb Bool
hop_of_user row expected to u opts = do
  lift (require (row.status == expected) conflict)
  lift (allowed row.status to)
  apply_recommendation_hop row row.status to (user u) opts false

unfoldable pub retry_generation : Recommendation → User → Exec RecommendationDb Bool
retry_generation row u = do
  lift (require_center_actor u)
  hop_of_user row generation_failed generating u no_extras

unfoldable pub approve_recommendation : Recommendation → User → Exec RecommendationDb Bool
approve_recommendation row u = do
  lift (require_center_actor u)
  now ← gets (λ db. db.clock)
  hop_of_user row pending_review approved u (record { note = none; approval = some (u.id, now) })

unfoldable pub request_recommendation_revision :
    Recommendation → User → Text → Exec RecommendationDb Bool
request_recommendation_revision row u text = do
  lift (require_center_actor u)
  hop_of_user row pending_review revision_requested u
      (record { note = some (take 200 text); approval = none })

unfoldable pub begin_regeneration : Recommendation → Text → Exec RecommendationDb Bool
begin_regeneration row text = do
  lift (allowed revision_requested regenerating)
  apply_recommendation_hop row revision_requested regenerating (system none)
      (record { note = some (take 200 text); approval = none }) false

unfoldable pub others_run : (RecommendationDb → RecommendationDb) → Exec RecommendationDb (Unit {0})
others_run between db = (ok tt, between db)

unfoldable pub system_transition :
    (RecommendationDb → RecommendationDb)
    → String
    → RecommendationStatus
    → RecommendationStatus
    → String
    → HopExtras
    → Exec RecommendationDb Bool
system_transition between id expected to job_id opts = do
  row ← load_recommendation id
  if not (row.status == expected) then pure false else (do
    lift (allowed row.status to)
    others_run between
    transaction (apply_recommendation_hop row row.status to (system (some job_id)) opts true))
