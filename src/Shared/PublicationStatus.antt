-- ===== src/Shared/PublicationStatus.antt =====
-- packages/shared/src/distribution/publication.ts: the states of one publication (a source on a channel).
use gachinol.Prelude.{ℕ, ◌≡◌, refl, Bool, some, List, [], ◌∷◌, get_elem?, Eq, Enum, eq_of_enum}
use gachinol.Shared.StateMachine.{TransitionMap, can_transition}

pub data PublicationStatus : Type 0 where
  queued publishing failed published retracted canceled : PublicationStatus

abbrev publication_statuses : List PublicationStatus
publication_statuses = queued ∷ publishing ∷ failed ∷ published ∷ retracted ∷ canceled ∷ []

abbrev publication_index : PublicationStatus → ℕ
publication_index queued = 0
publication_index publishing = 1
publication_index failed = 2
publication_index published = 3
publication_index retracted = 4
publication_index canceled = 5

pub publication_index_lem :
    (s : PublicationStatus) → get_elem? publication_statuses (publication_index s) ≡ some s
publication_index_lem queued = refl
publication_index_lem _ = refl

abbrev pub publication_enum : Enum PublicationStatus
publication_enum = record {
  values = publication_statuses;
  index = publication_index;
  index_lem = publication_index_lem;
}

instance abbrev pub publication_status_eq : Eq PublicationStatus
publication_status_eq = eq_of_enum publication_enum

abbrev pub publication_status_transitions : TransitionMap PublicationStatus
publication_status_transitions queued = publishing ∷ canceled ∷ []
publication_status_transitions publishing = published ∷ failed ∷ []
publication_status_transitions failed = queued ∷ canceled ∷ []
publication_status_transitions published = retracted ∷ []
publication_status_transitions retracted = []
publication_status_transitions canceled = []

-- The test of this map.
unfoldable pub can_transition_publication : PublicationStatus → PublicationStatus → Bool
can_transition_publication from to = can_transition publication_status_transitions from to
