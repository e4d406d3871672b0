-- ===== src/Api/Arbiter/Policy.antt =====
-- services/api/src/arbiter/arbiter-policy.ts, with the types of
-- packages/shared/src/system/processing-state.ts. `queued` is a count, `since` is left out: no
-- decision reads it. The Korean texts of `describeHold` are left out.
use gachinol.Prelude.{ℕ, String, Bool, true, false, ◌&&◌, Option, none, some, ltb, if◌then◌else◌}

pub record DcpArbiterState : Type 0 where
  pub busy : Bool
  pub stage : Option String
  pub queued : ℕ

pub data HoldReason : Type 0 where
  dcp_busy dcp_imminent dcp_unreachable : HoldReason

pub data FailMode : Type 0 where
  hold run : FailMode

pub record HoldPolicy : Type 0 where
  pub hold_on_imminent : Bool
  pub fail_mode : FailMode

pub record HoldDecision : Type 0 where
  pub hold : Bool
  pub reason : Option HoldReason

abbrev pub run_decision : HoldDecision
run_decision = record { hold = false; reason = none }

abbrev pub hold_because : HoldReason → HoldDecision
hold_because r = record { hold = true; reason = some r }

abbrev no_stage : Option String → Bool
no_stage none = true
no_stage (some s) = false

abbrev on_failure : FailMode → HoldDecision
on_failure hold = hold_because dcp_unreachable
on_failure run = run_decision

-- `none` is a state that could not be read.
unfoldable pub decide_hold : Option DcpArbiterState → HoldPolicy → HoldDecision
decide_hold none policy = on_failure policy.fail_mode
decide_hold (some state) policy =
    if state.busy
    then hold_because dcp_busy
    else if policy.hold_on_imminent && no_stage state.stage && ltb 0 state.queued
    then hold_because dcp_imminent
    else run_decision
