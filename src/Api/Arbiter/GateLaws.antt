-- ===== src/Api/Arbiter/GateLaws.antt =====
-- The gate follows the DCP pipeline.
use gachinol.Prelude.{
  ◌≡◌, refl, sym, subst, ◌∙◌, ap, Bool, true, Option, List, [], ◌∷◌, Bool-cases, inl, inr, arith,
  All,
}
use gachinol.Api.Arbiter.Policy.{DcpArbiterState, HoldPolicy, HoldDecision, decide_hold}
use gachinol.Api.Arbiter.Gate.{
  Phase, idle, fetching, gating, Call, works, lost, refused, Arbiter, Event, refresh, fetched,
  gated, same_bool, call_queue, noted, apply_gate, refresh_from, fetched_in, gated_in, finish_round,
  step, steps, on_module_init,
}

-- What the arbiter believes of the queue is so.
abbrev pub Faithful : Arbiter → Type 0
Faithful a = a.holding ≡ a.paused

-- No call of the queue failed after the queue had done it.
abbrev pub Reported : Event → Type 0
Reported (gated lost) = ⊥
Reported _ = Unit

call_queue-Faithful :
    (hold : Bool) (call : Call) (a : Arbiter)
    → Reported (gated call)
    → Faithful a
    → Faithful (call_queue hold call a)
call_queue-Faithful hold works a k h = refl
call_queue-Faithful hold lost a k h = elim k [ ]
call_queue-Faithful hold refused a k h = h

apply_gate-Faithful :
    (decision : HoldDecision) (call : Call) (a : Arbiter)
    → Reported (gated call)
    → Faithful a
    → Faithful (apply_gate decision call a)
apply_gate-Faithful decision call a k h = elim (Bool-cases (same_bool decision.hold a.holding)) [
  | inl same ↦ rw same h
  | inr other ↦ rw other (call_queue-Faithful decision.hold call (noted decision a) k h)
]

finish_round-Faithful : (a : Arbiter) → Faithful a → Faithful (finish_round a)
finish_round-Faithful a h = elim (Bool-cases a.pending) [
  | inl again ↦ rw again h
  | inr last ↦ rw last h
]

refresh-Faithful : (p : Phase) (a : Arbiter) → Faithful a → Faithful (refresh_from p a)
refresh-Faithful idle a h = h
refresh-Faithful _ a h = h

fetched-Faithful :
    (policy : HoldPolicy) (p : Phase) (s : Option DcpArbiterState) (a : Arbiter)
    → Faithful a
    → Faithful (fetched_in policy p s a)
fetched-Faithful policy fetching s a h = h
fetched-Faithful policy _ s a h = h

gated-Faithful :
    (p : Phase) (call : Call) (a : Arbiter)
    → Reported (gated call)
    → Faithful a
    → Faithful (gated_in p call a)
gated-Faithful (gating d) call a k h =
    finish_round-Faithful (apply_gate d call a) (apply_gate-Faithful d call a k h)
gated-Faithful _ call a k h = h

step-Faithful :
    (policy : HoldPolicy) (e : Event) (a : Arbiter)
    → Reported e
    → Faithful a
    → Faithful (step policy e a)
unfolding step
step-Faithful policy refresh a k h = refresh-Faithful a.phase a h
step-Faithful policy (fetched s) a k h = fetched-Faithful policy a.phase s a h
step-Faithful policy (gated call) a k h = gated-Faithful a.phase call a k h

-- If the first question to the queue is answered, then after any events in which no call of the queue
-- fails after the queue has done it, calls that fail otherwise included, the arbiter knows whether
-- the queue is paused.
pub steps-Faithful :
    (policy : HoldPolicy) (paused : Bool) (events : List Event)
    → All Reported events
    → Faithful (steps policy events (on_module_init paused true))
unfolding on_module_init steps
steps-Faithful policy paused events k = go events _ k refl
  where
    go :
        (es : List Event) (a : Arbiter)
        → All Reported es
        → Faithful a
        → Faithful (steps policy es a)
    go [] a k h = h
    go (e ∷ rest) a (k, ks) h = go rest (step policy e a) ks (step-Faithful policy e a k h)

-- What the round in progress is for.
abbrev pub InPhase : HoldPolicy → Arbiter → Phase → Type 0
InPhase policy a idle = a.paused ≡ (decide_hold a.dcp policy).hold
InPhase policy a fetching = Unit
InPhase policy a (gating decision) = decision ≡ decide_hold a.dcp policy

abbrev pub Decided : HoldPolicy → Arbiter → Type 0
Decided policy a = Faithful a × InPhase policy a a.phase

-- No call of the queue failed.
abbrev pub Works : Event → Type 0
Works refresh = Unit
Works (fetched s) = Unit
Works (gated call) = call ≡ works

module _ (policy : HoldPolicy) (a : Arbiter) where
  unchanged : (p : Phase) → a.phase ≡ p → InPhase policy a p → InPhase policy a a.phase
  unchanged p k i = subst (InPhase policy a) (sym k) i

  refresh-InPhase :
      (p : Phase)
      → a.phase ≡ p
      → InPhase policy a p
      → InPhase policy (refresh_from p a) (refresh_from p a).phase
  refresh-InPhase idle k i = tt
  refresh-InPhase fetching k i = subst (InPhase policy (record a { pending = true })) (sym k) i
  refresh-InPhase (gating d) k i = subst (InPhase policy (record a { pending = true })) (sym k) i

  fetched-InPhase :
      (p : Phase) (s : Option DcpArbiterState)
      → a.phase ≡ p
      → InPhase policy a p
      → InPhase policy (fetched_in policy p s a) (fetched_in policy p s a).phase
  fetched-InPhase idle s k i = unchanged idle k i
  fetched-InPhase fetching s k i = refl
  fetched-InPhase (gating d) s k i = unchanged (gating d) k i

  apply_gate-paused : (d : HoldDecision) → Faithful a → (apply_gate d works a).paused ≡ d.hold
  apply_gate-paused d h = ground arith

  apply_gate-dcp : (d : HoldDecision) (call : Call) → (apply_gate d call a).dcp ≡ a.dcp
  apply_gate-dcp d call = ground arith

  finish_round-InPhase :
      (d : HoldDecision)
      → Faithful a
      → d ≡ decide_hold a.dcp policy
      → (let b = finish_round (apply_gate d works a) in InPhase policy b b.phase)
  finish_round-InPhase d h i = elim (Bool-cases (apply_gate d works a).pending) [
    | inl again ↦ rw again tt
    | inr last ↦ rw last (
        apply_gate-paused d h
        ∙ ap (λ x. x.hold) i
        ∙ ap (λ x. (decide_hold x policy).hold) (sym (apply_gate-dcp d works)))
  ]

  gated-InPhase :
      (p : Phase) (call : Call)
      → call ≡ works
      → Faithful a
      → a.phase ≡ p
      → InPhase policy a p
      → InPhase policy (gated_in p call a) (gated_in p call a).phase
  gated-InPhase idle call w h k i = unchanged idle k i
  gated-InPhase fetching call w h k i = unchanged fetching k i
  gated-InPhase (gating d) call w h k i = rw w (finish_round-InPhase d h i)

Works-Reported : (e : Event) → Works e → Reported e
Works-Reported refresh w = tt
Works-Reported (fetched s) w = tt
Works-Reported (gated call) w = rw w tt

init-Decided : (policy : HoldPolicy) (paused : Bool) → Decided policy (on_module_init paused true)
unfolding on_module_init
init-Decided policy paused = (refl, tt)

step-Decided :
    (policy : HoldPolicy) (e : Event) (a : Arbiter)
    → Works e
    → Decided policy a
    → Decided policy (step policy e a)
unfolding step
step-Decided policy refresh a w (h, i) =
    (refresh-Faithful a.phase a h, refresh-InPhase policy a a.phase refl i)
step-Decided policy (fetched s) a w (h, i) =
    (fetched-Faithful policy a.phase s a h, fetched-InPhase policy a a.phase s refl i)
step-Decided policy (gated call) a w (h, i) = (
  gated-Faithful a.phase call a (Works-Reported (gated call) w) h,
  gated-InPhase policy a a.phase call w h refl i,
)

steps-Decided :
    (policy : HoldPolicy) (events : List Event) (a : Arbiter)
    → All Works events
    → Decided policy a
    → Decided policy (steps policy events a)
unfolding steps
steps-Decided policy [] a w d = d
steps-Decided policy (e ∷ rest) a (w, ws) d =
    steps-Decided policy rest (step policy e a) ws (step-Decided policy e a w d)

-- While the calls of the queue work: whenever no round is in progress, the media queue is paused
-- exactly if the policy says so of the state that was read last.
pub steps-follow_policy :
    (policy : HoldPolicy) (paused : Bool) (events : List Event)
    → All Works events
    → (steps policy events (on_module_init paused true)).phase ≡ idle
    → (steps policy events (on_module_init paused true)).paused
      ≡ (decide_hold (steps policy events (on_module_init paused true)).dcp policy).hold
steps-follow_policy policy paused events w e =
    subst (InPhase policy (steps policy events (on_module_init paused true))) e
      (steps-Decided policy events (on_module_init paused true) w (init-Decided policy paused)).1
