-- ===== src/Api/Contents/Workflow/Redelivery.antt =====
-- `applySystemTransition` under at-least-once delivery.
use gachinol.Prelude.{
  ℕ, ◌≡◌, ◌≢◌, refl, ap, subst, ◌∙◌, ◌⊎◌, inl, inr, String, Bool, true, false, Option, none, some,
  ◌==◌, string_eq, eq_self, eq_of_test, test_of_ne, Bool-cases, arith,
}
use gachinol.Shared.ContentStatus.{
  ContentStatus, content_status_eq, published, can_transition_content,
}
use gachinol.Api.Exec.{Result, ok, err, when, pure, ◌>>=◌, ◌>>◌}
use gachinol.Api.Contents.Database.{
  ContentColumns, Content, system, Db, find_content, find_content_lem,
}
use gachinol.Api.Contents.Workflow.Guards.{assert_allowed, policy_guard}
use gachinol.Api.Contents.Workflow.Hop.{Mutate, nothing, approval, failure, HopOpts, hop_data}
use gachinol.Api.Contents.Workflow.HopLaws.{hop_state, Applied, apply_hop-cases}
use gachinol.Api.Contents.Workflow.Discipline.{assert_allowed-ok}
use gachinol.Api.Contents.Workflow.Operations.{
  Environment, load, await, sync_public_media_after_publish, apply_and_sync,
  apply_system_transition,
}

-- No status is its own successor.
no_self_loop : (s : ContentStatus) → can_transition_content s s ≢ true
unfolding can_transition_content
no_self_loop s h = ground arith

-- `content id` has the status.
abbrev pub AtStatus : String → ContentStatus → Db → Type 0
AtStatus id st s = (r : ContentColumns) × (s.contents id ≡ some r) × (r.status ≡ st)

-- The content is there and not at the status.
abbrev pub HasLeft : String → ContentStatus → Db → Type 0
HasLeft id st s = (r : ContentColumns) × (s.contents id ≡ some r) × (r.status ≢ st)

-- The contents are those that others left of a database in which the content had the status.
abbrev pub Committed : Environment → String → ContentStatus → Db → Type 0
Committed env id st t = (u : Db) × AtStatus id st u × (t.contents ≡ (env.between u).contents)

left_after :
    (id : String) (st : ContentStatus) (t u : Db)
    → t.contents ≡ u.contents
    → HasLeft id st u
    → HasLeft id st t
left_after id st t u e (r, found, left) = (r, ap (λ x. x id) e ∙ found, left)

pub hop_data-status :
    (c : Content) (to : ContentStatus) (m : Mutate) (now : ℕ) (r : ContentColumns)
    → (hop_data c to m now r).status ≡ to
unfolding hop_data
hop_data-status c to nothing now r = refl
hop_data-status c to (approval u at) now r = refl
hop_data-status c to (failure e at) now r = refl

module _ (env : Environment)
    (hook : (id : String) (g : ℕ) (s : Db)
      → (env.sync_published_copies id g s).1.contents ≡ s.contents) where
  pub after_hook :
      (b : Bool) (c : Content) (s : Db)
      → (when b (sync_public_media_after_publish env c.id c.generation) s).1.contents ≡ s.contents
  unfolding when sync_public_media_after_publish ◌>>=◌
  after_hook true c s = hook c.id c.generation s
  after_hook false c s = refl

  pub finish :
      (b : Bool) (c : Content) (s : Db)
      → (when b (sync_public_media_after_publish env c.id c.generation) >> pure true) s
        ≡ (ok true, (when b (sync_public_media_after_publish env c.id c.generation) s).1)
  unfolding when sync_public_media_after_publish ◌>>=◌
  finish true c s = refl
  finish false c s = refl

  module _ (c : Content) (to : ContentStatus) (job : String) (opts : HopOpts) (s : Db) where
    abbrev HopApplied : Type 0
    HopApplied = Applied c c.status to (system (some job)) opts true (env.between s)

    abbrev committed : ContentColumns → Db
    committed r = hop_state c c.status to (system (some job)) opts r (env.between s)

    abbrev synced : ContentColumns → Db
    synced r =
        (when (to == published) (sync_public_media_after_publish env c.id c.generation)
          (env.between (committed r))).1

    apply_and_sync-cases :
        ((apply_and_sync env c to job opts s).0 ≢ ok true)
        ⊎ ((a : HopApplied) × (apply_and_sync env c to job opts s ≡ (ok true, synced a.row)))
    unfolding apply_and_sync ◌>>=◌ await
    apply_and_sync-cases =
        elim (apply_hop-cases c c.status to (system (some job)) opts true (env.between s)) [
          | inl refused ↦ elim refused.reason [
            | inl closed ↦ inl (rw (refused.result, closed.0) λ h. cc)
            | inr lost ↦ inl (rw (refused.result, lost.0) λ h. cc)
          ]
          | inr a ↦ inr (a, rw a.result (finish (to == published) c _))
        ]

    applied_commits :
        (apply_and_sync env c to job opts s).0 ≡ ok true
        → Committed env c.id to (apply_and_sync env c to job opts s).1
    applied_commits h = elim apply_and_sync-cases [
      | inl refused ↦ elim (refused h) [ ]
      | inr (a, e) ↦ (
        committed a.row,
        (
          hop_data c to opts.mutate (env.between s).clock a.row,
          rw (eq_self c.id) refl,
          hop_data-status c to opts.mutate (env.between s).clock a.row,
        ),
        ap (λ x. x.1.contents) e ∙ after_hook (to == published) c _,
      )
    ]

  module _ (id job : String) (from to : ContentStatus) (opts : HopOpts) where
    abbrev deliver : Db → Result Bool × Db
    deliver s = apply_system_transition env id from to job opts s

    abbrev Delivered : Db → Type 0
    Delivered s =
        (deliver s).0 ≡ ok true
        → (can_transition_content from to ≡ true) × Committed env id to (deliver s).1

    Delivered-checked :
        (s : Db) (c : Content) (p q : Result (Unit {0}))
        → find_content id s ≡ some c
        → (c.status == from) ≡ true
        → policy_guard c c.status to (system (some job)) ≡ p
        → assert_allowed c.status to ≡ q
        → Delivered s
    unfolding apply_system_transition ◌>>=◌ load
    Delivered-checked s c (err x) q e same h k = rw (e, same, h) λ done. cc
    Delivered-checked s c (ok _) (err x) e same h k = rw (e, same, h, k) λ done. cc
    Delivered-checked s c (ok _) (ok _) e same h k =
        rw (e, same, h, k)
          λ done. (
            rw⁻¹ (eq_of_test c.status from same) (assert_allowed-ok c.status to k),
            subst (λ x. Committed env x to (apply_and_sync env c to job opts s).1)
                (find_content_lem id c s e).0 (applied_commits c to job opts s done),
          )

    delivered : (s : Db) (o : Option Content) → find_content id s ≡ o → Delivered s
    unfolding apply_system_transition ◌>>=◌ load
    delivered s none e = rw e λ h. cc
    delivered s (some c) e = elim (Bool-cases (c.status == from)) [
      | inl same ↦ Delivered-checked s c _ _ e same refl refl
      | inr gone ↦ rw (e, gone) λ h. cc
    ]

    past : (s : Db) → HasLeft id from s → deliver s ≡ (ok false, s)
    unfolding apply_system_transition ◌>>=◌ load
    past s (r, found, left) = rw (found, test_of_ne r.status from left) refl

    -- A delivery of a job's transition that answers true has committed the target status, and what it
    -- leaves is what others made of that commit while it waited afterwards; the same delivery again
    -- then answers false and writes nothing, if those others did not bring the content back to the
    -- expected status. The hook for public media is to leave the contents as they are.
    pub apply_system_transition-once :
        (s : Db)
        → ((u : Db) → AtStatus id to u → from ≢ to → HasLeft id from (env.between u))
        → (apply_system_transition env id from to job opts s).0 ≡ ok true
        → let t = (apply_system_transition env id from to job opts s).1 in
          Committed env id to t
          × (apply_system_transition env id from to job opts t ≡ (ok false, t))
    apply_system_transition-once s kept h =
        let d = delivered s _ refl h in
        let kept_off = kept d.1.0 d.1.1 (λ same. no_self_loop to (rw same at d.0)) in
        (d.1, past _ (left_after id from (deliver s).1 (env.between d.1.0) d.1.2 kept_off))
