-- ===== src/Api/Contents/Workflow/Policy.antt =====
-- Where the policy guard lets a transition pass.
use gachinol.Prelude.{◌≡◌, ◌≢◌, refl, Bool, true, false, arith}
use gachinol.Shared.ContentStatus.{
  ContentStatus, draft, awaiting_reporter_review, awaiting_center_review, preview_generating,
  reporter_approved, revision_requested, rejected, is_failure_status,
}
use gachinol.Api.Exec.{ok}
use gachinol.Api.Contents.Database.{Content, TransitionActor, user, system}
use gachinol.Api.Contents.Workflow.Guards.{policy_guard}

-- Edges on which the policy guard says nothing.
pub policy_guard-quiet :
    (c : Content) (from to : ContentStatus) (actor : TransitionActor)
    → from ≢ preview_generating
    → from ≢ awaiting_reporter_review
    → policy_guard c from to actor ≡ ok tt
unfolding policy_guard
policy_guard-quiet c draft to (user u) h k = refl
policy_guard-quiet c preview_generating to actor h k = absurd (h refl)
policy_guard-quiet c awaiting_reporter_review to actor h k = absurd (k refl)
policy_guard-quiet c _ to (user u) h k = refl
policy_guard-quiet c _ to (system j) h k = refl

-- The states that the guard speaks of.
abbrev pub is_reviewed : ContentStatus → Bool
is_reviewed awaiting_reporter_review = true
is_reviewed awaiting_center_review = true
is_reviewed reporter_approved = true
is_reviewed revision_requested = true
is_reviewed rejected = true
is_reviewed _ = false

from_preview :
    (c : Content) (to : ContentStatus) (actor : TransitionActor)
    → is_reviewed to ≡ false
    → policy_guard c preview_generating to actor ≡ ok tt
unfolding policy_guard
from_preview c awaiting_reporter_review actor h = cc
from_preview c awaiting_center_review actor h = cc
from_preview c _ (user u) h = refl
from_preview c _ (system j) h = refl

from_review :
    (c : Content) (to : ContentStatus) (actor : TransitionActor)
    → is_reviewed to ≡ false
    → policy_guard c awaiting_reporter_review to actor ≡ ok tt
unfolding policy_guard
from_review c reporter_approved actor h = cc
from_review c revision_requested actor h = cc
from_review c rejected actor h = cc
from_review c _ (user u) h = refl
from_review c _ (system j) h = refl

pub policy_guard-unreviewed :
    (c : Content) (from to : ContentStatus) (actor : TransitionActor)
    → is_reviewed to ≡ false
    → policy_guard c from to actor ≡ ok tt
unfolding policy_guard
policy_guard-unreviewed c preview_generating to actor h = from_preview c to actor h
policy_guard-unreviewed c awaiting_reporter_review to actor h = from_review c to actor h
policy_guard-unreviewed c draft to (user u) h = refl
policy_guard-unreviewed c draft to (system j) h = refl
policy_guard-unreviewed c _ to (user u) h = refl
policy_guard-unreviewed c _ to (system j) h = refl

-- A failed state is none of those from which the guard restricts.
pub policy_guard-failure :
    (c : Content) (from to : ContentStatus) (actor : TransitionActor)
    → is_failure_status from ≡ true
    → policy_guard c from to actor ≡ ok tt
unfolding is_failure_status
policy_guard-failure c from to actor h =
    policy_guard-quiet c from to actor (λ e. ground arith) (λ e. ground arith)
