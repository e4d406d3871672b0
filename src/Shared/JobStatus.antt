-- ===== src/Shared/JobStatus.antt =====
-- packages/shared/src/job/job.ts: the states of a queue job.
use gachinol.Prelude.{ℕ, ◌≡◌, refl, Bool, some, List, [], ◌∷◌, get_elem?, Eq, Enum, eq_of_enum}
use gachinol.Shared.StateMachine.{TransitionMap, can_transition}

pub data JobStatus : Type 0 where
  queued active failed dead completed canceled : JobStatus

abbrev job_statuses : List JobStatus
job_statuses = queued ∷ active ∷ failed ∷ dead ∷ completed ∷ canceled ∷ []

abbrev job_index : JobStatus → ℕ
job_index queued = 0
job_index active = 1
job_index failed = 2
job_index dead = 3
job_index completed = 4
job_index canceled = 5

pub job_index_lem : (s : JobStatus) → get_elem? job_statuses (job_index s) ≡ some s
job_index_lem queued = refl
job_index_lem _ = refl

abbrev pub job_enum : Enum JobStatus
job_enum = record { values = job_statuses; index = job_index; index_lem = job_index_lem }

instance abbrev pub job_status_eq : Eq JobStatus
job_status_eq = eq_of_enum job_enum

abbrev pub job_status_transitions : TransitionMap JobStatus
job_status_transitions queued = active ∷ canceled ∷ []
job_status_transitions active = completed ∷ failed ∷ canceled ∷ []
job_status_transitions failed = queued ∷ dead ∷ []
job_status_transitions dead = queued ∷ canceled ∷ []
job_status_transitions completed = []
job_status_transitions canceled = []

-- The test of this map.
unfoldable pub can_transition_job : JobStatus → JobStatus → Bool
can_transition_job from to = can_transition job_status_transitions from to
