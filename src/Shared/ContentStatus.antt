-- ===== src/Shared/ContentStatus.antt =====
-- packages/shared/src/content/workflow.ts: the 23 states of a content and the rules between them.
pub mod Laws
use gachinol.Prelude.{
  ℕ, ◌≡◌, refl, Bool, true, false, not, ◌&&◌, Option, none, some, List, [], ◌∷◌, get_elem?, Eq,
  Enum, eq_of_enum, ◌==◌, includes,
}
use gachinol.Shared.StateMachine.{TransitionMap, can_transition, is_terminal_state}

pub data ContentStatus : Type 0 where
  draft uploading upload_failed uploaded processing processing_failed : ContentStatus
  analyzing analysis_failed preview_generating preview_failed : ContentStatus
  awaiting_reporter_review revision_requested regenerating regeneration_failed : ContentStatus
  reporter_approved awaiting_center_review center_approved : ContentStatus
  publishing publish_failed published rejected canceled archived : ContentStatus

abbrev pub content_statuses : List ContentStatus
content_statuses =
    draft ∷ uploading ∷ upload_failed ∷ uploaded ∷ processing ∷ processing_failed ∷ analyzing
    ∷ analysis_failed ∷ preview_generating ∷ preview_failed ∷ awaiting_reporter_review
    ∷ revision_requested ∷ regenerating ∷ regeneration_failed ∷ reporter_approved
    ∷ awaiting_center_review ∷ center_approved ∷ publishing ∷ publish_failed ∷ published ∷ rejected
    ∷ canceled ∷ archived ∷ []

abbrev content_index : ContentStatus → ℕ
content_index draft = 0
content_index uploading = 1
content_index upload_failed = 2
content_index uploaded = 3
content_index processing = 4
content_index processing_failed = 5
content_index analyzing = 6
content_index analysis_failed = 7
content_index preview_generating = 8
content_index preview_failed = 9
content_index awaiting_reporter_review = 10
content_index revision_requested = 11
content_index regenerating = 12
content_index regeneration_failed = 13
content_index reporter_approved = 14
content_index awaiting_center_review = 15
content_index center_approved = 16
content_index publishing = 17
content_index publish_failed = 18
content_index published = 19
content_index rejected = 20
content_index canceled = 21
content_index archived = 22

pub content_index_lem : (s : ContentStatus) → get_elem? content_statuses (content_index s) ≡ some s
content_index_lem draft = refl
content_index_lem _ = refl

abbrev pub content_enum : Enum ContentStatus
content_enum = record {
  values = content_statuses;
  index = content_index;
  index_lem = content_index_lem;
}

instance abbrev pub content_status_eq : Eq ContentStatus
content_status_eq = eq_of_enum content_enum

abbrev pub content_status_transitions : TransitionMap ContentStatus
content_status_transitions draft = uploading ∷ canceled ∷ []
content_status_transitions uploading = uploaded ∷ upload_failed ∷ []
content_status_transitions upload_failed = uploading ∷ canceled ∷ []
content_status_transitions uploaded = processing ∷ canceled ∷ []
content_status_transitions processing =
    analyzing ∷ preview_generating ∷ processing_failed ∷ canceled ∷ []
content_status_transitions processing_failed = processing ∷ canceled ∷ []
content_status_transitions analyzing = preview_generating ∷ analysis_failed ∷ canceled ∷ []
content_status_transitions analysis_failed = analyzing ∷ preview_generating ∷ canceled ∷ []
content_status_transitions preview_generating =
    awaiting_reporter_review ∷ awaiting_center_review ∷ preview_failed ∷ []
content_status_transitions preview_failed = preview_generating ∷ canceled ∷ []
content_status_transitions awaiting_reporter_review =
    reporter_approved ∷ revision_requested ∷ rejected ∷ canceled ∷ []
content_status_transitions revision_requested = regenerating ∷ canceled ∷ []
content_status_transitions regenerating = analyzing ∷ preview_generating ∷ regeneration_failed ∷ []
content_status_transitions regeneration_failed = regenerating ∷ canceled ∷ []
content_status_transitions reporter_approved = awaiting_center_review ∷ publishing ∷ []
content_status_transitions awaiting_center_review =
    center_approved ∷ revision_requested ∷ rejected ∷ []
content_status_transitions center_approved = publishing ∷ []
content_status_transitions publishing = published ∷ publish_failed ∷ []
content_status_transitions publish_failed = publishing ∷ canceled ∷ []
content_status_transitions published = archived ∷ []
content_status_transitions rejected = []
content_status_transitions canceled = []
content_status_transitions archived = []

-- Shut, so that proofs about the services see one test and not 23 rows.
unfoldable pub can_transition_content : ContentStatus → ContentStatus → Bool
can_transition_content from to = can_transition content_status_transitions from to

pub data ReviewPolicy : Type 0 where
  reporter_only reporter_then_center : ReviewPolicy

unfoldable pub after_reporter_approval : ReviewPolicy → ContentStatus
after_reporter_approval reporter_then_center = awaiting_center_review
after_reporter_approval reporter_only = publishing

-- `CONTENT_RETRY_TARGET[s]`; `none` for a key that the object lacks.
unfoldable pub content_retry_target : ContentStatus → Option ContentStatus
content_retry_target upload_failed = some uploading
content_retry_target processing_failed = some processing
content_retry_target analysis_failed = some analyzing
content_retry_target preview_failed = some preview_generating
content_retry_target regeneration_failed = some regenerating
content_retry_target publish_failed = some publishing
content_retry_target _ = none

abbrev is_key : Option ContentStatus → Bool
is_key none = false
is_key (some _) = true

-- `s in CONTENT_RETRY_TARGET`
unfoldable pub is_failure_status : ContentStatus → Bool
unfolding content_retry_target
is_failure_status s = is_key (content_retry_target s)

abbrev keep_if : (ContentStatus → Bool) → List ContentStatus → List ContentStatus
keep_if p [] = []
keep_if p (s ∷ rest) = elim (p s) [ true ↦ s ∷ keep_if p rest | false ↦ keep_if p rest ]

unfoldable pub caption_editable_content_statuses : List ContentStatus
caption_editable_content_statuses =
    keep_if (λ s. not (is_terminal_state content_status_transitions s) && not (s == published))
      content_statuses

unfoldable pub is_caption_editable_status : ContentStatus → Bool
unfolding caption_editable_content_statuses
is_caption_editable_status s = includes caption_editable_content_statuses s
