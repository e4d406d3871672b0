-- ===== src/Api/Arbiter/Startup.antt =====
-- The gate after a start at which the question to the queue failed.
use gachinol.Prelude.{◌≡◌, refl, true, false, List, [], ◌∷◌, Bool-cases, inl, inr, All}
use gachinol.Api.Arbiter.Policy.{HoldPolicy, HoldDecision, decide_hold}
use gachinol.Api.Arbiter.Gate.{
  Phase, idle, fetching, gating, Call, Arbiter, Event, refresh, fetched, gated, same_bool, noted,
  apply_gate, refresh_from, fetched_in, gated_in, finish_round, step, steps, on_module_init,
}

-- No state that is read asks for a pause.
abbrev pub AsksNoPause : HoldPolicy → Event → Type 0
AsksNoPause policy refresh = Unit
AsksNoPause policy (fetched s) = (decide_hold s policy).hold ≡ false
AsksNoPause policy (gated call) = Unit

-- The round in progress, if it has decided, has decided for no pause.
abbrev NoPauseIn : Phase → Type 0
NoPauseIn idle = Unit
NoPauseIn fetching = Unit
NoPauseIn (gating decision) = decision.hold ≡ false

-- The queue is paused and the arbiter takes it for running.
record Unaware (a : Arbiter) : Type 0 where
  holding : a.holding ≡ false
  paused : a.paused ≡ true
  phase : NoPauseIn a.phase

start_or_stop-Unaware :
    (a : Arbiter) → a.holding ≡ false → a.paused ≡ true → Unaware (finish_round a)
start_or_stop-Unaware a h p = elim (Bool-cases a.pending) [
  | inl again ↦ rw again (record { holding = h; paused = p; phase = tt })
  | inr last ↦ rw last (record { holding = h; paused = p; phase = tt })
]

same_off :
    (d : HoldDecision) (a : Arbiter)
    → d.hold ≡ false
    → a.holding ≡ false
    → same_bool d.hold a.holding ≡ true
same_off d a n h = rw (n, h) refl

no_call :
    (d : HoldDecision) (call : Call) (a : Arbiter)
    → same_bool d.hold a.holding ≡ true
    → apply_gate d call a ≡ noted d a
no_call d call a same = rw same refl

gated-Unaware :
    (p : Phase) (call : Call) (a : Arbiter)
    → a.phase ≡ p
    → Unaware a
    → NoPauseIn p
    → Unaware (gated_in p call a)
gated-Unaware idle call a k h n = h
gated-Unaware fetching call a k h n = h
gated-Unaware (gating d) call a k h n =
    rw (no_call d call a (same_off d a n h.holding))
      (start_or_stop-Unaware (noted d a) h.holding h.paused)

step-Unaware :
    (policy : HoldPolicy) (e : Event) (a : Arbiter)
    → AsksNoPause policy e
    → Unaware a
    → Unaware (step policy e a)
unfolding step
step-Unaware policy refresh a n h = go a.phase h.phase
  where
    go : (p : Phase) → NoPauseIn p → Unaware (refresh_from p a)
    go idle k = record { holding = h.holding; paused = h.paused; phase = tt }
    go fetching k = record { holding = h.holding; paused = h.paused; phase = h.phase }
    go (gating d) k = record { holding = h.holding; paused = h.paused; phase = h.phase }
step-Unaware policy (fetched s) a n h = go a.phase
  where
    go : (p : Phase) → Unaware (fetched_in policy p s a)
    go fetching = record { holding = h.holding; paused = h.paused; phase = n }
    go _ = h
step-Unaware policy (gated call) a n h = gated-Unaware a.phase call a refl h h.phase

-- If a process before left the queue paused and the first question to the queue fails, the queue stays
-- paused for as long as no state that is read asks for a pause, though every later call may work.
pub steps-stay_paused :
    (policy : HoldPolicy) (events : List Event)
    → All (AsksNoPause policy) events
    → (steps policy events (on_module_init true false)).paused ≡ true
unfolding on_module_init steps
steps-stay_paused policy events n =
    go events _ n (record { holding = refl; paused = refl; phase = tt })
  where
    go :
        (es : List Event) (a : Arbiter)
        → All (AsksNoPause policy) es
        → Unaware a
        → (steps policy es a).paused ≡ true
    go [] a n h = h.paused
    go (e ∷ rest) a (n, ns) h = go rest (step policy e a) ns (step-Unaware policy e a n h)
