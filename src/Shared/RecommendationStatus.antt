-- ===== src/Shared/RecommendationStatus.antt =====
-- packages/shared/src/recommendation/weekly-recommendation.ts: the states of a weekly recommendation.
use gachinol.Prelude.{ℕ, ◌≡◌, refl, Bool, some, List, [], ◌∷◌, get_elem?, Eq, Enum, eq_of_enum}
use gachinol.Shared.StateMachine.{TransitionMap, can_transition}

pub data RecommendationStatus : Type 0 where
  generating generation_failed pending_review revision_requested regenerating approved publishing
        publish_failed published discarded :
      RecommendationStatus

abbrev recommendation_statuses : List RecommendationStatus
recommendation_statuses =
    generating ∷ generation_failed ∷ pending_review ∷ revision_requested ∷ regenerating ∷ approved
    ∷ publishing ∷ publish_failed ∷ published ∷ discarded ∷ []

abbrev recommendation_index : RecommendationStatus → ℕ
recommendation_index generating = 0
recommendation_index generation_failed = 1
recommendation_index pending_review = 2
recommendation_index revision_requested = 3
recommendation_index regenerating = 4
recommendation_index approved = 5
recommendation_index publishing = 6
recommendation_index publish_failed = 7
recommendation_index published = 8
recommendation_index discarded = 9

pub recommendation_index_lem :
    (s : RecommendationStatus) → get_elem? recommendation_statuses (recommendation_index s) ≡ some s
recommendation_index_lem generating = refl
recommendation_index_lem _ = refl

abbrev pub recommendation_enum : Enum RecommendationStatus
recommendation_enum = record {
  values = recommendation_statuses;
  index = recommendation_index;
  index_lem = recommendation_index_lem;
}

instance abbrev pub recommendation_status_eq : Eq RecommendationStatus
recommendation_status_eq = eq_of_enum recommendation_enum

abbrev pub recommendation_status_transitions : TransitionMap RecommendationStatus
recommendation_status_transitions generating = pending_review ∷ generation_failed ∷ []
recommendation_status_transitions generation_failed = generating ∷ discarded ∷ []
recommendation_status_transitions pending_review = approved ∷ revision_requested ∷ discarded ∷ []
recommendation_status_transitions revision_requested = regenerating ∷ discarded ∷ []
recommendation_status_transitions regenerating = pending_review ∷ generation_failed ∷ []
recommendation_status_transitions approved = publishing ∷ []
recommendation_status_transitions publishing = published ∷ publish_failed ∷ []
recommendation_status_transitions publish_failed = publishing ∷ discarded ∷ []
recommendation_status_transitions published = []
recommendation_status_transitions discarded = []

-- The test of this map.
unfoldable pub can_transition_recommendation : RecommendationStatus → RecommendationStatus → Bool
can_transition_recommendation from to = can_transition recommendation_status_transitions from to
