-- ===== src/Api/Contents/Workflow/MethodsInTransaction.antt =====
-- The methods that run inside their caller's transaction keep to a discipline.
use gachinol.Prelude.{◌≡◌, refl, String, false, Option, none, some, not, ◌==◌}
use gachinol.Shared.ContentStatus.{
  ContentStatus, content_status_eq, publishing, publish_failed, upload_failed, canceled,
}
use gachinol.Api.Exec.{ok, ◌>>=◌}
use gachinol.Api.Exec.Guarantee.{Guarantee, Guarantee-pure, Guarantee-check, Guarantee-if}
use gachinol.Api.Users.{User}
use gachinol.Api.Contents.Database.{Text, Content, TransitionActor, user, Db, find_content}
use gachinol.Api.Contents.Workflow.Guards.{assert_allowed}
use gachinol.Api.Contents.Workflow.Policy.{policy_guard-unreviewed}
use gachinol.Api.Contents.Workflow.InTransaction.{
  cancel_found, cancel_by_system, begin_publishing, resume_publishing, fail_upload_tx,
}
use gachinol.Api.Contents.Workflow.Discipline.{Checked, Discipline, assert_allowed-ok, then-obeys}

to_publishing-Checked :
    (c : Content) (from : ContentStatus) (actor : TransitionActor) {a : Unit {0}}
    → assert_allowed from publishing ≡ ok a
    → Checked c from publishing actor
to_publishing-Checked c from actor h = record {
  on_map = assert_allowed-ok from publishing h;
  by_policy = policy_guard-unreviewed c from publishing actor refl;
  from_loaded = λ e. cc;
}

module _ {R : Db → Db → Type 0} {Start : Db → Type 0} {Known : Content → Db → Type 0}
    (d : Discipline R Start Known) where
  pub begin_publishing-obeys :
      (c : Content) (u : User) → Guarantee R (Known c) (begin_publishing c u)
  unfolding begin_publishing
  begin_publishing-obeys c u =
      Guarantee-check d.order _ _
        λ _ _. Guarantee-check d.order _ _ λ _ h. d.hop c _ _ _ _ _ (to_publishing-Checked c _ _ h)

  pub resume_publishing-obeys :
      (c : Content) (u : User) → Guarantee R (Known c) (resume_publishing c u)
  unfolding resume_publishing
  resume_publishing-obeys c u =
      Guarantee-if d.order (not (c.status == publish_failed)) _ _
        (λ _. Guarantee-pure d.order false)
        λ _. Guarantee-check d.order _ _ λ _ _.
          Guarantee-check d.order _ _ λ _ h. d.hop c _ _ _ _ _ (to_publishing-Checked c _ _ h)

  pub fail_upload_tx-obeys :
      (c : Content) (u : User) (reason : Option Text)
      → Guarantee R (Known c) (fail_upload_tx c u reason)
  unfolding fail_upload_tx
  fail_upload_tx-obeys c u reason = Guarantee-check d.order _ _ λ _ _.
      Guarantee-check d.order _ _ λ _ h. d.hop c _ _ _ _ _ (record {
        on_map = assert_allowed-ok c.status upload_failed h;
        by_policy = policy_guard-unreviewed c c.status upload_failed (user u) refl;
        from_loaded = λ _. refl;
      })

  cancel_row-obeys :
      (c : Content) (from : ContentStatus) (text : Text)
      → Guarantee R (Known c) (cancel_found from text (some c))
  cancel_row-obeys c from text =
      Guarantee-if d.order (not (c.status == from)) _ _ (λ _. Guarantee-pure d.order _)
        λ _. Guarantee-check d.order _ _ λ _ p. Guarantee-check d.order _ _ λ _ h.
          then-obeys d c _ _
            (d.hop c _ _ _ _ _ (record {
              on_map = assert_allowed-ok c.status canceled h;
              by_policy = p;
              from_loaded = λ _. refl;
            }))
            λ _. Guarantee-pure d.order _

  pub cancel_by_system-obeys :
      (id : String) (from : ContentStatus) (text : Text)
      → Guarantee R Start (cancel_by_system id from text)
  unfolding cancel_by_system ◌>>=◌
  cancel_by_system-obeys id from text = record { at = λ s h. go s h (find_content id s) refl }
    where
      go :
          (s : Db)
          → Start s
          → (o : Option Content) → find_content id s ≡ o
          → R s (cancel_by_system id from text s).1
      go s h none e = rw e (d.order.reflexive s)
      go s h (some c) e = rw e ((cancel_row-obeys c from text).at s (d.known_load id c s h e))
