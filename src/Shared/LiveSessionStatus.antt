-- ===== src/Shared/LiveSessionStatus.antt =====
-- packages/shared/src/live/live-session.ts: the states of a live session.
use gachinol.Prelude.{ℕ, ◌≡◌, refl, Bool, some, List, [], ◌∷◌, get_elem?, Eq, Enum, eq_of_enum}
use gachinol.Shared.StateMachine.{TransitionMap, can_transition}

pub data LiveSessionStatus : Type 0 where
  scheduled preparing live interrupted ended canceled : LiveSessionStatus

abbrev live_session_statuses : List LiveSessionStatus
live_session_statuses = scheduled ∷ preparing ∷ live ∷ interrupted ∷ ended ∷ canceled ∷ []

abbrev live_session_index : LiveSessionStatus → ℕ
live_session_index scheduled = 0
live_session_index preparing = 1
live_session_index live = 2
live_session_index interrupted = 3
live_session_index ended = 4
live_session_index canceled = 5

pub live_session_index_lem :
    (s : LiveSessionStatus) → get_elem? live_session_statuses (live_session_index s) ≡ some s
live_session_index_lem scheduled = refl
live_session_index_lem _ = refl

abbrev pub live_session_enum : Enum LiveSessionStatus
live_session_enum = record {
  values = live_session_statuses;
  index = live_session_index;
  index_lem = live_session_index_lem;
}

instance abbrev pub live_session_status_eq : Eq LiveSessionStatus
live_session_status_eq = eq_of_enum live_session_enum

abbrev pub live_session_status_transitions : TransitionMap LiveSessionStatus
live_session_status_transitions scheduled = preparing ∷ canceled ∷ []
live_session_status_transitions preparing = live ∷ canceled ∷ []
live_session_status_transitions live = interrupted ∷ ended ∷ []
live_session_status_transitions interrupted = live ∷ ended ∷ []
live_session_status_transitions ended = []
live_session_status_transitions canceled = []

-- The test of this map.
unfoldable pub can_transition_live_session : LiveSessionStatus → LiveSessionStatus → Bool
can_transition_live_session from to = can_transition live_session_status_transitions from to
