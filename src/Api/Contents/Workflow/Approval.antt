-- ===== src/Api/Contents/Workflow/Approval.antt =====
-- `approve` by the reporter: two hops in one transaction.
use gachinol.Prelude.{◌≡◌, refl, ap, ◌∙◌, ◌⊎◌, inl, inr, true, false, none, some}
use gachinol.Shared.ContentStatus.{ContentStatus, reporter_approved, after_reporter_approval}
use gachinol.Api.Exec.{
  ApiErrorCode, Result, ok, err, conflict, invalid_transition, transaction, ◌>>=◌, ◌>>◌,
}
use gachinol.Api.Users.{User}
use gachinol.Api.Contents.Database.{Text, Content, TransitionActor, user, system, Db}
use gachinol.Api.Contents.Workflow.Guards.{assert_allowed, policy_guard}
use gachinol.Api.Contents.Workflow.Hop.{HopOpts, approval, with_note, apply_hop}
use gachinol.Api.Contents.Workflow.HopLaws.{hop_state, Refused, Applied, apply_hop-cases}
use gachinol.Api.Contents.Workflow.Operations.{Environment, load, await, approve_as_reporter}

-- What a strict hop answers when it changes nothing.
Refused-err :
    {c : Content} {from to : ContentStatus} {actor : TransitionActor} {opts : HopOpts} {s : Db}
    → (r : Refused c from to actor opts false s)
    → (e : ApiErrorCode) × (apply_hop c from to actor opts false s ≡ (err e, s))
Refused-err {s = s} r = elim r.reason [
  | inl closed ↦ (invalid_transition, r.result ∙ ap (λ a. (a, s)) closed.0)
  | inr lost ↦ (conflict, r.result ∙ ap (λ a. (a, s)) lost.0)
]

-- Two strict hops in one transaction: both, or an error and neither.
pub two_hops :
    (c : Content) (from mid to : ContentStatus) (a b : TransitionActor) (f g : HopOpts) (s : Db)
    → ((e : ApiErrorCode) × (transaction
            (do apply_hop c from mid a f false; apply_hop c mid to b g false)
            s
          ≡ (err e, s)))
      ⊎ ((first : Applied c from mid a f false s) × (second : Applied c mid to b g false
            (hop_state c from mid a f first.row s))
          × (transaction (do apply_hop c from mid a f false; apply_hop c mid to b g false) s ≡ (
            ok true,
            hop_state c mid to b g second.row (hop_state c from mid a f first.row s),
          )))
unfolding transaction ◌>>=◌
two_hops c from mid to a b f g s = elim (apply_hop-cases c from mid a f false s) [
  | inl refused ↦ let (e, same) = Refused-err refused in inl (e, rw same refl)
  | inr first ↦ elim (apply_hop-cases c mid to b g false (hop_state c from mid a f first.row s)) [
    | inl refused ↦ let (e, same) = Refused-err refused in inl (e, rw (first.result, same) refl)
    | inr second ↦ inr (first, second, rw (first.result, second.result) refl)
  ]
]

module _ (env : Environment) (chain_note : Text) (c : Content) (u : User) (s : Db) where
  abbrev approving : HopOpts
  approving = record { note = none; mutate = approval u.id s.clock }

  abbrev chained : ContentStatus
  chained = after_reporter_approval c.review_policy

  -- The state after the reporter's hop, and after the automatic one.
  abbrev pub BothHops : Type 0
  BothHops =
      (first : Applied c c.status reporter_approved (user u) approving false (env.between s))
      × (second : Applied c reporter_approved chained (system none) (with_note (some chain_note))
          false
          (hop_state c c.status reporter_approved (user u) approving first.row (env.between s)))
      × ((approve_as_reporter env chain_note c u s).1
          ≡ env.between (
              hop_state c reporter_approved chained (system none) (with_note (some chain_note))
                second.row
                (hop_state c c.status reporter_approved (user u) approving first.row
                  (env.between s))))

  -- An error, with nothing written but what other requests commit.
  abbrev pub Refusal : Type 0
  Refusal =
      ((e : ApiErrorCode) × (approve_as_reporter env chain_note c u s ≡ (err e, s)))
      ⊎ ((e : ApiErrorCode) × (approve_as_reporter env chain_note c u s ≡ (err e, env.between s)))

  -- The reporter's approval and the automatic hop to what the review policy asks for are both
  -- applied, or the answer is an error and neither is, whatever other requests commit before and
  -- after the transaction.
  pub approve_as_reporter-atomic : Refusal ⊎ BothHops
  unfolding approve_as_reporter ◌>>=◌ await load
  approve_as_reporter-atomic =
      go (policy_guard c c.status reporter_approved (user u)) refl
        (assert_allowed c.status reporter_approved) refl
    where
      go :
          (p : Result (Unit {0}))
          → policy_guard c c.status reporter_approved (user u) ≡ p
          → (q : Result (Unit {0})) → assert_allowed c.status reporter_approved ≡ q
          → Refusal ⊎ BothHops
      go (err e) h q k = inl (inl (e, rw h refl))
      go (ok _) h (err e) k = inl (inl (e, rw (h, k) refl))
      go (ok _) h (ok _) k =
          elim (two_hops c c.status reporter_approved chained (user u) (system none) approving
            (with_note (some chain_note)) (env.between s)) [
              | inl neither ↦ inl (inr (neither.0, rw (h, k, neither.1) refl))
              | inr both ↦ inr (both.0, both.1, rw (h, k, both.2) refl)
            ]
