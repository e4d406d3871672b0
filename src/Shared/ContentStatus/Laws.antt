-- ===== src/Shared/ContentStatus/Laws.antt =====
-- The completeness rules of the content state machine.
use gachinol.Prelude.{◌≡◌, refl, ◌↔◌, ◌⊎◌, true, false, some, List, [], ◌∷◌, arith}
use gachinol.Shared.StateMachine.{Reaches, here, Reaches-walk, walks, last_or, is_terminal_state}
use gachinol.Shared.ContentStatus.{
  ContentStatus, draft, uploading, upload_failed, uploaded, processing, processing_failed,
  analyzing, analysis_failed, preview_generating, preview_failed, awaiting_reporter_review,
  revision_requested, regenerating, regeneration_failed, reporter_approved, awaiting_center_review,
  center_approved, publishing, publish_failed, published, rejected, canceled, archived,
  content_status_eq, content_status_transitions, can_transition_content, ReviewPolicy,
  reporter_only, reporter_then_center, after_reporter_approval, content_retry_target,
  is_failure_status,
}

module _ {s : ContentStatus} where
  via :
      (t : ContentStatus) (route : List ContentStatus)
      → Reaches content_status_transitions s t
      → walks content_status_transitions t route ≡ true
      → Reaches content_status_transitions s (last_or t route)
  via t route r h = Reaches-walk content_status_transitions s t route r h

abbrev pub FromDraft : ContentStatus → Type 0
FromDraft s = Reaches content_status_transitions draft s

abbrev to_preview : List ContentStatus
to_preview = uploading ∷ uploaded ∷ processing ∷ analyzing ∷ preview_generating ∷ []

from_draft :
    (route : List ContentStatus)
    → walks content_status_transitions draft route ≡ true
    → FromDraft (last_or draft route)
from_draft route h = via draft route here h

from_preview :
    (route : List ContentStatus)
    → walks content_status_transitions preview_generating route ≡ true
    → FromDraft (last_or preview_generating route)
from_preview route h = via preview_generating route (from_draft to_preview refl) h

-- Every state is reached from draft along allowed transitions.
pub every_status-FromDraft : (s : ContentStatus) → FromDraft s
every_status-FromDraft draft = here
every_status-FromDraft uploading = from_draft (uploading ∷ []) refl
every_status-FromDraft upload_failed = from_draft (uploading ∷ upload_failed ∷ []) refl
every_status-FromDraft uploaded = from_draft (uploading ∷ uploaded ∷ []) refl
every_status-FromDraft processing = from_draft (uploading ∷ uploaded ∷ processing ∷ []) refl
every_status-FromDraft processing_failed =
    from_draft (uploading ∷ uploaded ∷ processing ∷ processing_failed ∷ []) refl
every_status-FromDraft analyzing =
    from_draft (uploading ∷ uploaded ∷ processing ∷ analyzing ∷ []) refl
every_status-FromDraft analysis_failed =
    from_draft (uploading ∷ uploaded ∷ processing ∷ analyzing ∷ analysis_failed ∷ []) refl
every_status-FromDraft preview_generating = from_preview [] refl
every_status-FromDraft preview_failed = from_preview (preview_failed ∷ []) refl
every_status-FromDraft awaiting_reporter_review = from_preview (awaiting_reporter_review ∷ []) refl
every_status-FromDraft awaiting_center_review = from_preview (awaiting_center_review ∷ []) refl
every_status-FromDraft reporter_approved =
    from_preview (awaiting_reporter_review ∷ reporter_approved ∷ []) refl
every_status-FromDraft revision_requested =
    from_preview (awaiting_reporter_review ∷ revision_requested ∷ []) refl
every_status-FromDraft rejected = from_preview (awaiting_reporter_review ∷ rejected ∷ []) refl
every_status-FromDraft center_approved =
    from_preview (awaiting_center_review ∷ center_approved ∷ []) refl
every_status-FromDraft regenerating =
    from_preview (awaiting_reporter_review ∷ revision_requested ∷ regenerating ∷ []) refl
every_status-FromDraft regeneration_failed =
    from_preview
      (awaiting_reporter_review ∷ revision_requested ∷ regenerating ∷ regeneration_failed ∷ []) refl
every_status-FromDraft publishing =
    from_preview (awaiting_center_review ∷ center_approved ∷ publishing ∷ []) refl
every_status-FromDraft publish_failed =
    from_preview (awaiting_center_review ∷ center_approved ∷ publishing ∷ publish_failed ∷ []) refl
every_status-FromDraft published =
    from_preview (awaiting_center_review ∷ center_approved ∷ publishing ∷ published ∷ []) refl
every_status-FromDraft archived =
    from_preview (awaiting_center_review ∷ center_approved ∷ publishing ∷ published ∷ archived ∷ [])
      refl
every_status-FromDraft canceled = from_draft (canceled ∷ []) refl

abbrev pub CanPublish : ContentStatus → Type 0
CanPublish s = Reaches content_status_transitions s published

road :
    (s : ContentStatus) (route : List ContentStatus)
    → walks content_status_transitions s route ≡ true
    → Reaches content_status_transitions s (last_or s route)
road s route h = via s route here h

abbrev review_to_air : List ContentStatus
review_to_air = awaiting_center_review ∷ center_approved ∷ publishing ∷ published ∷ []

abbrev preview_to_air : List ContentStatus
preview_to_air = preview_generating ∷ review_to_air

abbrev processing_to_air : List ContentStatus
processing_to_air = processing ∷ preview_to_air

-- From every state that is not final, allowed transitions lead to published, in no step where
-- the state is published already.
pub open_status-CanPublish :
    (s : ContentStatus) → is_terminal_state content_status_transitions s ≡ false → CanPublish s
open_status-CanPublish draft h = road draft (uploading ∷ uploaded ∷ processing_to_air) refl
open_status-CanPublish uploading h = road uploading (uploaded ∷ processing_to_air) refl
open_status-CanPublish upload_failed h =
    road upload_failed (uploading ∷ uploaded ∷ processing_to_air) refl
open_status-CanPublish uploaded h = road uploaded processing_to_air refl
open_status-CanPublish processing h = road processing preview_to_air refl
open_status-CanPublish processing_failed h = road processing_failed processing_to_air refl
open_status-CanPublish analyzing h = road analyzing preview_to_air refl
open_status-CanPublish analysis_failed h = road analysis_failed preview_to_air refl
open_status-CanPublish preview_generating h = road preview_generating review_to_air refl
open_status-CanPublish preview_failed h = road preview_failed preview_to_air refl
open_status-CanPublish awaiting_reporter_review h =
    road awaiting_reporter_review (reporter_approved ∷ publishing ∷ published ∷ []) refl
open_status-CanPublish revision_requested h =
    road revision_requested (regenerating ∷ preview_to_air) refl
open_status-CanPublish regenerating h = road regenerating preview_to_air refl
open_status-CanPublish regeneration_failed h =
    road regeneration_failed (regenerating ∷ preview_to_air) refl
open_status-CanPublish reporter_approved h =
    road reporter_approved (publishing ∷ published ∷ []) refl
open_status-CanPublish awaiting_center_review h =
    road awaiting_center_review (center_approved ∷ publishing ∷ published ∷ []) refl
open_status-CanPublish center_approved h = road center_approved (publishing ∷ published ∷ []) refl
open_status-CanPublish publishing h = road publishing (published ∷ []) refl
open_status-CanPublish publish_failed h = road publish_failed (publishing ∷ published ∷ []) refl
open_status-CanPublish published h = here
open_status-CanPublish rejected h = cc
open_status-CanPublish canceled h = cc
open_status-CanPublish archived h = cc

-- The final states are rejected, canceled and archived, and no other.
pub terminal_iff :
    (s : ContentStatus)
    → (is_terminal_state content_status_transitions s ≡ true)
      ↔ ((s ≡ rejected) ⊎ (s ≡ canceled) ⊎ (s ≡ archived))
terminal_iff s = (λ h. ground arith, λ h. ground arith)

-- A state that has a retry target may go to it, may be canceled, and counts as a failure.
pub retry_target-allowed :
    (s t : ContentStatus)
    → content_retry_target s ≡ some t
    → (can_transition_content s t ≡ true)
      × (can_transition_content s canceled ≡ true)
      × (is_failure_status s ≡ true)
unfolding content_retry_target can_transition_content is_failure_status
retry_target-allowed s t h = ground arith

-- A state that counts as a failure has a retry target.
pub retry_target_of_failure :
    (s : ContentStatus)
    → is_failure_status s ≡ true
    → (t : ContentStatus) × (content_retry_target s ≡ some t)
unfolding content_retry_target is_failure_status
retry_target_of_failure s h = ground arith

-- After the reporter's approval the review policy picks a state that the map allows.
pub after_reporter_approval-allowed :
    (policy : ReviewPolicy)
    → can_transition_content reporter_approved (after_reporter_approval policy) ≡ true
unfolding after_reporter_approval can_transition_content
after_reporter_approval-allowed reporter_only = refl
after_reporter_approval-allowed reporter_then_center = refl
