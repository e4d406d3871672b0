-- ===== src/Api/Recommendations/WorkflowLaws.antt =====
-- Every log row of a weekly recommendation is an allowed transition.
use gachinol.Prelude.{
  ◌≡◌, refl, String, Bool, true, false, not, Option, none, some, [], ◌∷◌, ◌==◌, All, All-append,
  Bool-cases, inl, inr,
}
use gachinol.Shared.RecommendationStatus.{
  RecommendationStatus, recommendation_status_eq, revision_requested, regenerating,
  can_transition_recommendation,
}
use gachinol.Api.Exec.{ok, Exec, transaction, require, conflict, invalid_transition, ◌>>=◌}
use gachinol.Api.Exec.Guarantee.{
  Preorder, Guarantee, Guarantee-pure, Guarantee-throw, Guarantee-if, Guarantee-gets,
  Guarantee-transaction, Guarantee-bind, Guarantee-check,
}
use gachinol.Api.Users.{User}
use gachinol.Api.Contents.Database.{Text, TransitionActor}
use gachinol.Api.Recommendations.Workflow.{
  Columns, Recommendation, RecommendationLog, RecommendationDb, HopExtras, load_recommendation,
  update_columns, cas_columns, create_recommendation_log, apply_recommendation_hop, allowed,
  hop_of_user, retry_generation, approve_recommendation, request_recommendation_revision,
  begin_regeneration, others_run, system_transition, columns_after,
}

abbrev pub OnMap : RecommendationLog → Type 0
OnMap l = can_transition_recommendation l.from_status l.to_status ≡ true

abbrev pub AllOnMap : RecommendationDb → Type 0
AllOnMap s = All OnMap s.logs

abbrev Keeps : RecommendationDb → RecommendationDb → Type 0
Keeps s t = AllOnMap s → AllOnMap t

abbrev Always : RecommendationDb → Type 0
Always s = Unit

Keeps-order : Preorder Keeps
Keeps-order = record { reflexive = λ s h. h; transitive = λ s t u f g h. g (f h) }

then-Keeps :
    {A B : Type 0} (m : Exec RecommendationDb A) (f : A → Exec RecommendationDb B)
    → Guarantee Keeps Always m
    → ((a : A) → Guarantee Keeps Always (f a))
    → Guarantee Keeps Always (m >>= f)
then-Keeps m f g k = Guarantee-bind Keeps-order m f (λ s t r h. h) g k

update-Keeps :
    (id : String) (from : RecommendationStatus) (change : Columns → Columns)
    → Guarantee Keeps Always (update_columns id from change)
unfolding update_columns
update-Keeps id from change = record { at = λ s _ inv. go s inv (s.rows id) }
  where
    go :
        (s : RecommendationDb)
        → AllOnMap s
        → (o : Option Columns) → AllOnMap (cas_columns id from change s o).1
    go s inv none = inv
    go s inv (some r) = elim (Bool-cases (r.status == from)) [
      | inl same ↦ rw same inv
      | inr other ↦ rw other inv
    ]

log-Keeps : (l : RecommendationLog) → OnMap l → Guarantee Keeps Always (create_recommendation_log l)
unfolding create_recommendation_log
log-Keeps l h = record { at = λ s _ inv. All-append OnMap s.logs (l ∷ []) inv (h, tt) }

allowed-on_map : (b : Bool) {a : Unit {0}} → require b invalid_transition ≡ ok a → b ≡ true
allowed-on_map true h = refl
allowed-on_map false h = cc

hop-Keeps :
    (row : Recommendation) (from to : RecommendationStatus) (actor : TransitionActor)
    (opts : HopExtras) (idempotent : Bool)
    → can_transition_recommendation from to ≡ true
    → Guarantee Keeps Always (apply_recommendation_hop row from to actor opts idempotent)
unfolding apply_recommendation_hop
hop-Keeps row from to actor opts idempotent h = then-Keeps _ _ (Guarantee-gets Keeps-order _) λ now.
    then-Keeps _ _ (update-Keeps row.id from (columns_after to opts)) λ hit.
      Guarantee-if Keeps-order (not hit) _ _
        (λ _.
          Guarantee-if Keeps-order idempotent _ _ (λ _. Guarantee-pure Keeps-order false)
            (λ _. Guarantee-throw Keeps-order conflict))
        (λ _. then-Keeps _ _ (log-Keeps _ h) λ _. Guarantee-pure Keeps-order true)

user_hop-Keeps :
    (row : Recommendation) (expected to : RecommendationStatus) (u : User) (opts : HopExtras)
    → Guarantee Keeps Always (hop_of_user row expected to u opts)
unfolding hop_of_user
user_hop-Keeps row expected to u opts = Guarantee-check Keeps-order _ _ λ _ _.
    Guarantee-check Keeps-order (allowed row.status to) _
      λ _ fine. hop-Keeps row row.status to _ opts false (allowed-on_map _ fine)

pub data RecommendationRequest : Type 0 where
  retry : Recommendation → User → RecommendationRequest
  approve : Recommendation → User → RecommendationRequest
  revise : Recommendation → User → Text → RecommendationRequest
  regenerate : Recommendation → Text → RecommendationRequest
  job :
      String
      → RecommendationStatus
      → RecommendationStatus
      → String
      → HopExtras
      → RecommendationRequest

-- The database after a request; the callers of all but `applySystemTransition` open a transaction.
unfoldable pub after_request :
    (RecommendationDb → RecommendationDb)
    → RecommendationRequest
    → RecommendationDb
    → RecommendationDb
after_request between (retry row u) s = (transaction (retry_generation row u) s).1
after_request between (approve row u) s = (transaction (approve_recommendation row u) s).1
after_request between (revise row u text) s =
    (transaction (request_recommendation_revision row u text) s).1
after_request between (regenerate row text) s = (transaction (begin_regeneration row text) s).1
after_request between (job id expected to job_id opts) s =
    (system_transition between id expected to job_id opts s).1

load-Keeps : (id : String) → Guarantee Keeps Always (load_recommendation id)
unfolding load_recommendation
load-Keeps id = record { at = λ s _ inv. inv }

-- Every request, whatever it answers, keeps that each log row of a weekly recommendation is a
-- transition on the map, if the requests that run while it waits keep it.
pub after_request-AllOnMap :
    (between : RecommendationDb → RecommendationDb) (request : RecommendationRequest)
    (s : RecommendationDb)
    → ((t : RecommendationDb) → AllOnMap t → AllOnMap (between t))
    → AllOnMap s
    → AllOnMap (after_request between request s)
unfolding after_request retry_generation approve_recommendation request_recommendation_revision
    begin_regeneration system_transition others_run
after_request-AllOnMap between (retry row u) s o inv =
    (Guarantee-transaction Keeps-order _
        (Guarantee-check Keeps-order _ _ λ _ _. user_hop-Keeps row _ _ u _)).at
      s tt inv
after_request-AllOnMap between (approve row u) s o inv =
    (Guarantee-transaction Keeps-order _ (
        Guarantee-check Keeps-order _ _ λ _ _.
          then-Keeps _ _ (Guarantee-gets Keeps-order _) λ now. user_hop-Keeps row _ _ u _)).at
      s tt inv
after_request-AllOnMap between (revise row u text) s o inv =
    (Guarantee-transaction Keeps-order _
        (Guarantee-check Keeps-order _ _ λ _ _. user_hop-Keeps row _ _ u _)).at
      s tt inv
after_request-AllOnMap between (regenerate row text) s o inv =
    (Guarantee-transaction Keeps-order _ (
        Guarantee-check Keeps-order (allowed revision_requested regenerating) _
          λ _ fine. hop-Keeps row _ _ _ _ false (allowed-on_map _ fine))).at
      s tt inv
after_request-AllOnMap between (job id expected to job_id opts) s o inv =
    (then-Keeps _ _ (load-Keeps id) λ row.
        Guarantee-if Keeps-order (not (row.status == expected)) _ _
          (λ _. Guarantee-pure Keeps-order false)
          (λ _. Guarantee-check Keeps-order (allowed row.status to) _ λ _ fine.
            then-Keeps _ _ waits λ _.
              Guarantee-transaction Keeps-order _
                (hop-Keeps row row.status to _ opts true (allowed-on_map _ fine)))).at
      s tt inv
  where
    waits : Guarantee Keeps Always (others_run between)
    waits = record { at = λ t _ i. o t i }
