-- ===== src/Api/Contents/Workflow/Guards.antt =====
-- content-workflow.service.ts: the checks that a transition passes before its transaction. None of
-- them touches the database.
use gachinol.Prelude.{
  ◌&&◌, ◌||◌, some, List, [], ◌∷◌, ◌==◌, string_eq, option_eq, includes, if◌then◌else◌,
}
use gachinol.Shared.ContentStatus.{
  ContentStatus, content_status_eq, preview_generating, awaiting_reporter_review,
  awaiting_center_review, reporter_approved, revision_requested, rejected, can_transition_content,
}
use gachinol.Api.Exec.{Result, ok, require, then_check, forbidden, invalid_transition}
use gachinol.Api.Users.{User, user_role_eq, reporter, center_operator, admin}
use gachinol.Api.Contents.Database.{
  Content, content_origin_eq, reporter_upload, live_vod, resident_link, TransitionActor, user,
  system,
}

abbrev pub reporter_review_decisions : List ContentStatus
reporter_review_decisions = reporter_approved ∷ revision_requested ∷ rejected ∷ []

unfoldable pub assert_allowed : ContentStatus → ContentStatus → Result (Unit {0})
assert_allowed from to = require (can_transition_content from to) invalid_transition

unfoldable pub require_owner_reporter : Content → User → Result (Unit {0})
require_owner_reporter content u =
    require (u.role == reporter && content.reporter_id == some u.id) forbidden

unfoldable pub require_center_actor : User → Result (Unit {0})
require_center_actor u = require (u.role == center_operator || u.role == admin) forbidden

unfoldable pub require_owner_or_center : Content → User → Result (Unit {0})
unfolding require_owner_reporter require_center_actor
require_owner_or_center content u =
    if u.role == reporter then require_owner_reporter content u else require_center_actor u

-- The three rules of `policyGuard`, in its order.
abbrev guard_reporter_review : Content → ContentStatus → ContentStatus → Result (Unit {0})
guard_reporter_review content from to =
    if from == preview_generating && to == awaiting_reporter_review
    then require (content.origin == reporter_upload) invalid_transition
    else ok tt

abbrev guard_center_review : Content → ContentStatus → ContentStatus → Result (Unit {0})
guard_center_review content from to =
    if from == preview_generating && to == awaiting_center_review
    then require (content.origin == live_vod || content.origin == resident_link) invalid_transition
    else ok tt

abbrev guard_decision :
    Content → ContentStatus → ContentStatus → TransitionActor → Result (Unit {0})
unfolding require_owner_reporter
guard_decision content from to (system job) = ok tt
guard_decision content from to (user u) =
    if from == awaiting_reporter_review && includes reporter_review_decisions to
    then require_owner_reporter content u
    else ok tt

unfoldable pub policy_guard :
    Content → ContentStatus → ContentStatus → TransitionActor → Result (Unit {0})
unfolding require_owner_reporter
policy_guard content from to actor =
    then_check (guard_reporter_review content from to)
      (then_check (guard_center_review content from to) (guard_decision content from to actor))
