-- ===== src/Shared/StationStatus.antt =====
-- packages/shared/src/station/station.ts: the states of a station.
use gachinol.Prelude.{ℕ, ◌≡◌, refl, Bool, some, List, [], ◌∷◌, get_elem?, Eq, Enum, eq_of_enum}
use gachinol.Shared.StateMachine.{TransitionMap, can_transition}

pub data StationStatus : Type 0 where
  planned operating dormant : StationStatus

abbrev station_statuses : List StationStatus
station_statuses = planned ∷ operating ∷ dormant ∷ []

abbrev station_index : StationStatus → ℕ
station_index planned = 0
station_index operating = 1
station_index dormant = 2

pub station_index_lem : (s : StationStatus) → get_elem? station_statuses (station_index s) ≡ some s
station_index_lem planned = refl
station_index_lem _ = refl

abbrev pub station_enum : Enum StationStatus
station_enum = record {
  values = station_statuses;
  index = station_index;
  index_lem = station_index_lem;
}

instance abbrev pub station_status_eq : Eq StationStatus
station_status_eq = eq_of_enum station_enum

abbrev pub station_status_transitions : TransitionMap StationStatus
station_status_transitions planned = operating ∷ []
station_status_transitions operating = dormant ∷ []
station_status_transitions dormant = operating ∷ []

-- The test of this map.
unfoldable pub can_transition_station : StationStatus → StationStatus → Bool
can_transition_station from to = can_transition station_status_transitions from to
