-- ===== src/Api/Arbiter/PolicyLaws.antt =====
-- When the media queue is to be paused, and for which reason.
use gachinol.Prelude.{◌<◌, ◌≡◌, ◌↔◌, true, false, Option, none, some, arith}
use gachinol.Api.Arbiter.Policy.{
  DcpArbiterState, HoldReason, dcp_busy, dcp_imminent, dcp_unreachable, FailMode, HoldPolicy,
  decide_hold,
}

-- The policy yields to jobs about to start, no job is active and some wait.
abbrev pub Imminent : HoldPolicy → DcpArbiterState → Type 0
Imminent policy state = (policy.hold_on_imminent ≡ true) × (state.stage ≡ none) × (0 < state.queued)

abbrev pub Runs : Option DcpArbiterState → HoldPolicy → Type 0
Runs state policy = decide_hold state policy ≡ record { hold = false; reason = none }

abbrev pub PausesFor : HoldReason → Option DcpArbiterState → HoldPolicy → Type 0
PausesFor r state policy = decide_hold state policy ≡ record { hold = true; reason = some r }

-- A state that could be read asks for a pause as busy exactly if the pipeline is busy, as imminent
-- exactly if it is not busy and the policy yields to jobs about to start, no job is active and some
-- wait, and for no pause, without a reason, exactly if neither holds; one that could not be read asks
-- for a pause as unreachable exactly in the fail mode `hold`, and for no pause, without a reason,
-- exactly in the fail mode `run`.
pub decide_hold_iff :
    (policy : HoldPolicy) (state : DcpArbiterState)
    → (PausesFor dcp_busy (some state) policy ↔ (state.busy ≡ true))
      × (PausesFor dcp_imminent (some state) policy
          ↔ ((state.busy ≡ false) × Imminent policy state))
      × (Runs (some state) policy ↔ ((state.busy ≡ false) × ¬ Imminent policy state))
      × (PausesFor dcp_unreachable none policy ↔ (policy.fail_mode ≡ FailMode.hold))
      × (Runs none policy ↔ (policy.fail_mode ≡ FailMode.run))
unfolding decide_hold
decide_hold_iff policy state = (
  (λ h. ground arith, λ h. ground arith),
  (λ h. ground arith, λ h. ground arith),
  (λ h. (ground arith, λ i. ground arith), λ h. ground arith),
  (λ h. ground arith, λ h. ground arith),
  (λ h. ground arith, λ h. ground arith),
)
