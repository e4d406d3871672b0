-- ===== src/Shared/ResidentUploadStatus.antt =====
-- packages/shared/src/resident/resident-upload-status.ts: the review states of a resident's upload.
use gachinol.Prelude.{ℕ, ◌≡◌, refl, Bool, some, List, [], ◌∷◌, get_elem?, Eq, Enum, eq_of_enum}
use gachinol.Shared.StateMachine.{TransitionMap, can_transition}

pub data ResidentUploadStatus : Type 0 where
  pending upload_failed awaiting_branch_review approved rejected : ResidentUploadStatus

abbrev resident_upload_statuses : List ResidentUploadStatus
resident_upload_statuses =
    pending ∷ upload_failed ∷ awaiting_branch_review ∷ approved ∷ rejected ∷ []

abbrev resident_upload_index : ResidentUploadStatus → ℕ
resident_upload_index pending = 0
resident_upload_index upload_failed = 1
resident_upload_index awaiting_branch_review = 2
resident_upload_index approved = 3
resident_upload_index rejected = 4

pub resident_upload_index_lem :
    (s : ResidentUploadStatus)
    → get_elem? resident_upload_statuses (resident_upload_index s) ≡ some s
resident_upload_index_lem pending = refl
resident_upload_index_lem _ = refl

abbrev pub resident_upload_enum : Enum ResidentUploadStatus
resident_upload_enum = record {
  values = resident_upload_statuses;
  index = resident_upload_index;
  index_lem = resident_upload_index_lem;
}

instance abbrev pub resident_upload_status_eq : Eq ResidentUploadStatus
resident_upload_status_eq = eq_of_enum resident_upload_enum

abbrev pub resident_upload_status_transitions : TransitionMap ResidentUploadStatus
resident_upload_status_transitions pending = awaiting_branch_review ∷ upload_failed ∷ []
resident_upload_status_transitions upload_failed = []
resident_upload_status_transitions awaiting_branch_review = approved ∷ rejected ∷ []
resident_upload_status_transitions approved = []
resident_upload_status_transitions rejected = []

-- The test of this map.
unfoldable pub can_transition_resident_upload : ResidentUploadStatus → ResidentUploadStatus → Bool
can_transition_resident_upload from to = can_transition resident_upload_status_transitions from to
