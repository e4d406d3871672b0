-- ===== src/Api/Arbiter/Gate.antt =====
-- services/api/src/arbiter/dcp-arbiter.service.ts, `DcpArbiterService`: `refresh`, `applyGate` and the
-- two hooks of the module, as steps between their awaits. `refreshing` is a phase other than `idle`.
-- `paused` is what the queue itself holds; a call of the queue that fails may still have reached it.
use gachinol.Prelude.{Bool, true, false, not, ◌&&◌, Option, none, List, [], ◌∷◌, if◌then◌else◌}
use gachinol.Api.Arbiter.Policy.{DcpArbiterState, HoldReason, HoldPolicy, HoldDecision, decide_hold}

pub data Phase : Type 0 where
  idle : Phase
  fetching : Phase
  gating : HoldDecision → Phase

pub record Arbiter : Type 0 where
  pub phase : Phase
  pub pending : Bool
  pub holding : Bool
  pub reason : Option HoldReason
  pub dcp : Option DcpArbiterState
  pub paused : Bool

-- How a call of the queue ends: it works; it fails after the queue has done it, as when the answer is
-- lost; it fails and the queue has done nothing.
pub data Call : Type 0 where
  works lost refused : Call

pub data Event : Type 0 where
  refresh : Event  -- a call of `refresh`, from the timer or the event stream
  fetched : Option DcpArbiterState → Event  -- `fetchState` answers
  gated : Call → Event  -- the call of the queue ends, if there is one

abbrev pub same_bool : Bool → Bool → Bool
same_bool true b = b
same_bool false b = not b

abbrev pub start_fetch : Arbiter → Arbiter
start_fetch a = record a { phase = fetching; pending = false }

abbrev pub refresh_from : Phase → Arbiter → Arbiter
refresh_from idle a = start_fetch a
refresh_from _ a = record a { pending = true }

-- `do … while (this.pending)`
abbrev pub finish_round : Arbiter → Arbiter
finish_round a = if a.pending then start_fetch a else record a { phase = idle }

-- `queue.pause` if `hold`, else `queue.resume`; `holding` follows if the call works.
abbrev pub call_queue : Bool → Call → Arbiter → Arbiter
call_queue hold works a = record a { paused = hold; holding = hold }
call_queue hold lost a = record a { paused = hold }
call_queue hold refused a = a

abbrev pub noted : HoldDecision → Arbiter → Arbiter
noted decision a = record a { reason = if decision.hold then decision.reason else none }

abbrev pub apply_gate : HoldDecision → Call → Arbiter → Arbiter
apply_gate decision call a =
    if same_bool decision.hold a.holding
    then noted decision a
    else call_queue decision.hold call (noted decision a)

abbrev pub fetched_in : HoldPolicy → Phase → Option DcpArbiterState → Arbiter → Arbiter
fetched_in policy fetching state a = record a {
  dcp = state;
  phase = gating (decide_hold state policy);
}
fetched_in policy _ state a = a

abbrev pub gated_in : Phase → Call → Arbiter → Arbiter
gated_in (gating decision) call a = finish_round (apply_gate decision call a)
gated_in _ call a = a

unfoldable pub step : HoldPolicy → Event → Arbiter → Arbiter
step policy refresh a = refresh_from a.phase a
step policy (fetched state) a = fetched_in policy a.phase state a
step policy (gated call) a = gated_in a.phase call a

unfoldable pub steps : HoldPolicy → List Event → Arbiter → Arbiter
unfolding step
steps policy [] a = a
steps policy (e ∷ rest) a = steps policy rest (step policy e a)

-- `onModuleInit` asks the queue, which is as `paused` says, and refreshes at once. A call that fails
-- counts as a queue that is not paused.
unfoldable pub on_module_init : Bool → Bool → Arbiter
on_module_init paused answers = record {
  phase = fetching;
  pending = false;
  holding = answers && paused;
  reason = none;
  dcp = none;
  paused = paused;
}

-- `onModuleDestroy` does not leave the queue paused.
abbrev resume_queue : Call → Arbiter → Arbiter
resume_queue refused a = a
resume_queue _ a = record a { paused = false }

unfoldable pub on_module_destroy : Call → Arbiter → Arbiter
on_module_destroy call a = if a.holding then resume_queue call a else a
