-- ===== src/Api/Contents/Workflow/Methods.antt =====
-- Each method of `ContentWorkflowService` keeps to a discipline.
use gachinol.Prelude.{
  ℕ, ◌≡◌, ◌≢◌, refl, String, true, false, Option, none, some, arith, if◌then◌else◌,
}
use gachinol.Shared.ContentStatus.{
  ContentStatus, content_status_eq, center_approved, reporter_approved, published, ReviewPolicy,
  reporter_only, reporter_then_center, after_reporter_approval, is_failure_status,
}
use gachinol.Shared.ContentStatus.Laws.{after_reporter_approval-allowed}
use gachinol.Api.Exec.{ok, err, invalid_transition}
use gachinol.Api.Exec.Guarantee.{
  Guarantee, Guarantee-pure, Guarantee-transaction, Guarantee-check, Guarantee-if, Guarantee-gets,
  Guarantee-attempt, Guarantee-when,
}
use gachinol.Api.Users.{User}
use gachinol.Api.Contents.Database.{Text, Content, TransitionActor, user, system, Db}
use gachinol.Api.Contents.Workflow.Guards.{assert_allowed, policy_guard}
use gachinol.Api.Contents.Workflow.Policy.{
  is_reviewed, policy_guard-quiet, policy_guard-unreviewed, policy_guard-failure,
}
use gachinol.Api.Contents.Workflow.Hop.{HopOpts}
use gachinol.Api.Contents.Workflow.Operations.{
  Environment, approve_at_center, approve_as_reporter, approve, request_revision, reject, cancel,
  regenerate, retry, transition, sync_public_media_after_publish, remove_public_media_after_archive,
  apply_and_sync, apply_system_transition, user_hop,
}
use gachinol.Api.Contents.Workflow.Discipline.{
  Checked, Discipline, Obeys, assert_allowed-ok, load-obeys, reload-obeys, then-obeys, await-obeys,
  commit-obeys, commit_hop-obeys,
}

chained-ne-published : (policy : ReviewPolicy) → after_reporter_approval policy ≢ published
unfolding after_reporter_approval
chained-ne-published reporter_only = cc
chained-ne-published reporter_then_center = cc

-- A hop from the status that was loaded, after both checks.
checked :
    (c : Content) (to : ContentStatus) (actor : TransitionActor) {a b : Unit {0}}
    → policy_guard c c.status to actor ≡ ok a
    → assert_allowed c.status to ≡ ok b
    → Checked c c.status to actor
checked c to actor p h = record {
  on_map = assert_allowed-ok c.status to h;
  by_policy = p;
  from_loaded = λ _. refl;
}

-- The automatic second hop of a reporter's approval.
chained-Checked :
    (c : Content)
    → Checked c reporter_approved (after_reporter_approval c.review_policy) (system none)
chained-Checked c = record {
  on_map = after_reporter_approval-allowed c.review_policy;
  by_policy = policy_guard-quiet c reporter_approved _ (system none) (cc) (cc);
  from_loaded = λ e. absurd (chained-ne-published c.review_policy e);
}

failed_of_check :
    (c : Content) {a : Unit {0}}
    → (if is_failure_status c.status then ok tt else err invalid_transition) ≡ ok a
    → is_failure_status c.status ≡ true
failed_of_check c h = ground arith

module _ {R : Db → Db → Type 0} {Start : Db → Type 0} {Known : Content → Db → Type 0}
    (d : Discipline R Start Known) {env : Environment} (o : Obeys R env) where
  approve_at_center-obeys :
      (c : Content) (u : User) → Guarantee R (Known c) (approve_at_center env c u)
  unfolding approve_at_center
  approve_at_center-obeys c u = Guarantee-check d.order _ _ λ _ _.
      Guarantee-check d.order _ _ λ _ p. Guarantee-check d.order _ _ λ _ h.
        then-obeys d c _ _ (Guarantee-gets d.order _)
          λ _. commit_hop-obeys d c o c.status center_approved (user u) _ (checked c _ _ p h)

  approve_as_reporter-obeys :
      (note : Text) (c : Content) (u : User)
      → Guarantee R (Known c) (approve_as_reporter env note c u)
  unfolding approve_as_reporter
  approve_as_reporter-obeys note c u = Guarantee-check d.order _ _ λ _ p.
      Guarantee-check d.order _ _ λ _ h. then-obeys d c _ _ (Guarantee-gets d.order _) λ _.
        commit-obeys d c o _ _
          (then-obeys d c _ _ (d.hop c _ _ _ _ _ (checked c _ _ p h))
            λ _. d.hop c _ _ _ _ _ (chained-Checked c))
          (reload-obeys d c c.id)

  pub approve-obeys :
      (note : Text) (id : String) (u : User) → Guarantee R Start (approve env note id u)
  unfolding approve
  approve-obeys note id u = load-obeys d id _ λ c.
      Guarantee-if d.order _ _ _ (λ _. approve_at_center-obeys c u)
        λ _. approve_as_reporter-obeys note c u

  pub request_revision-obeys :
      (id : String) (u : User) (note : Text) → Guarantee R Start (request_revision env id u note)
  unfolding request_revision
  request_revision-obeys id u note = load-obeys d id _ λ c. Guarantee-check d.order _ _ λ _ p.
      Guarantee-check d.order _ _ λ _ _. Guarantee-check d.order _ _ λ _ h.
        commit-obeys d c o _ _
          (then-obeys d c _ _ (d.hop c _ _ _ _ _ (checked c _ _ p h)) λ _. d.revise c _)
          (reload-obeys d c c.id)

  pub reject-obeys :
      (id : String) (u : User) (note : Text) → Guarantee R Start (reject env id u note)
  unfolding reject
  reject-obeys id u note = load-obeys d id _ λ c. Guarantee-check d.order _ _ λ _ p.
      Guarantee-check d.order _ _
        λ _ _. Guarantee-check d.order _ _ λ _ h. commit_hop-obeys d c o _ _ _ _ (checked c _ _ p h)

  pub cancel-obeys :
      (id : String) (u : User) (reason : Option Text) → Guarantee R Start (cancel env id u reason)
  unfolding cancel
  cancel-obeys id u reason = load-obeys d id _ λ c. Guarantee-check d.order _ _ λ _ _.
      Guarantee-check d.order _ _ λ _ h.
        commit_hop-obeys d c o _ _ _ _ (checked c _ _ (policy_guard-unreviewed c _ _ _ refl) h)

  pub regenerate-obeys : (id : String) (u : User) → Guarantee R Start (regenerate env id u)
  unfolding regenerate
  regenerate-obeys id u = load-obeys d id _ λ c.
      Guarantee-check d.order _ _
        λ _ p. Guarantee-check d.order _ _ λ _ h. commit_hop-obeys d c o _ _ _ _ (checked c _ _ p h)

  sync-obeys :
      (c : Content) (id : String) (g : ℕ)
      → Guarantee R (Known c) (sync_public_media_after_publish env id g)
  unfolding sync_public_media_after_publish
  sync-obeys c id g = Guarantee-attempt d.order _ (record { at = λ s _. o.sync id g s })

  remove-obeys :
      (c : Content) (id : String) (g : ℕ)
      → Guarantee R (Known c) (remove_public_media_after_archive env id g)
  unfolding remove_public_media_after_archive
  remove-obeys c id g = Guarantee-attempt d.order _ (record { at = λ s _. o.remove id g s })

  pub transition-obeys :
      (id : String) (to : ContentStatus) (u : User) (reason : Option Text)
      → Guarantee R Start (transition env id to u reason)
  unfolding transition
  transition-obeys id to u reason = load-obeys d id _ λ c. Guarantee-check d.order _ _ λ _ _.
      Guarantee-check d.order _ _ λ _ p. Guarantee-check d.order _ _ λ _ h.
        then-obeys d c _ _ (Guarantee-gets d.order _) λ _.
          commit-obeys d c o _ _ (d.hop c _ _ _ _ _ (checked c _ _ p h)) (
            then-obeys d c _ _ (Guarantee-when d.order _ _ (sync-obeys c id c.generation)) λ _.
              then-obeys d c _ _ (Guarantee-when d.order _ _ (remove-obeys c id c.generation))
                λ _. reload-obeys d c id)

  applied-obeys :
      (c : Content) (to : ContentStatus) (job : String) (opts : HopOpts)
      → Checked c c.status to (system (some job))
      → Guarantee R (Known c) (apply_and_sync env c to job opts)
  unfolding apply_and_sync
  applied-obeys c to job opts k = then-obeys d c _ _ (await-obeys d c o) λ _.
      then-obeys d c _ _ (Guarantee-transaction d.order _ (d.hop c _ _ _ _ _ k)) λ _.
        then-obeys d c _ _ (await-obeys d c o) λ _.
          then-obeys d c _ _ (Guarantee-when d.order _ _ (sync-obeys c c.id c.generation))
            λ _. Guarantee-pure d.order _

  pub apply_system_transition-obeys :
      (id : String) (from to : ContentStatus) (job : String) (opts : HopOpts)
      → Guarantee R Start (apply_system_transition env id from to job opts)
  unfolding apply_system_transition
  apply_system_transition-obeys id from to job opts = load-obeys d id _ λ c.
      Guarantee-if d.order _ _ _ (λ _. Guarantee-pure d.order false)
        λ _.
          Guarantee-check d.order _ _ λ _ p.
            Guarantee-check d.order _ _ λ _ h. applied-obeys c to job opts (checked c _ _ p h)

  pub retry-obeys : (id : String) (u : User) → Guarantee R Start (retry env id u)
  unfolding retry
  retry-obeys id u = load-obeys d id _ λ c. Guarantee-check d.order _ _ λ _ f.
      Guarantee-check d.order _ _ λ _ _. Guarantee-check d.order _ _ λ _ h.
        commit_hop-obeys d c o _ _ _ _
          (checked c _ _ (policy_guard-failure c _ _ _ (failed_of_check c f)) h)

  pub user_hop-obeys :
      (id : String) (u : User) (to : ContentStatus)
      → is_reviewed to ≡ false
      → Guarantee R Start (user_hop env id u to)
  unfolding user_hop
  user_hop-obeys id u to k = load-obeys d id _ λ c. Guarantee-check d.order _ _ λ _ _.
      Guarantee-check d.order _ _
        λ _ h. commit_hop-obeys d c o _ _ _ _ (checked c _ _ (policy_guard-unreviewed c _ _ _ k) h)
