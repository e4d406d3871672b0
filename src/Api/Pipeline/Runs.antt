-- ===== src/Api/Pipeline/Runs.antt =====
-- The pipeline from its start on: the finished jobs that the queues still hold, then the events.
use gachinol.Prelude.{
  ℕ, ◌≡◌, refl, sym, ap, ◌∙◌, subst, inl, inr, String, true, Option, none, some, some-injective,
  List, [], ◌==◌, string_eq, eq_of_test, Bool-cases,
}
use mathlib.Core.List.{append-nil}
use gachinol.Api.Exec.{Exec, for_each, ◌>>◌}
use gachinol.Api.Exec.Guarantee.{Preorder, Guarantee}
use gachinol.Api.Contents.Database.{ContentColumns, Content, Db}
use gachinol.Api.Contents.Workflow.Trail.{Trail, view_of}
use gachinol.Api.Contents.Workflow.Audit.{Audited, Audited-order, identity_of}
use gachinol.Api.Contents.Workflow.AuditHop.{Known}
use gachinol.Api.Contents.Workflow.AuditRun.{audited}
use gachinol.Api.Contents.Workflow.Release.{
  AllDated, KeepsDates, DatedOnce, DatedOnce-order, LoadedDated, write_row-Dated,
}
use gachinol.Api.Contents.Workflow.ReleaseRun.{dated_once}
use gachinol.Api.Pipeline.System.{System, Outside, set_duration, with_duration}
use gachinol.Api.Pipeline.Events.{Event, on_event, reconcile}
use gachinol.Api.Pipeline.Keeps.{
  PipelineDiscipline, OutsideObeys, Keeps, bind-Keeps, for_each-Keeps,
}
use gachinol.Api.Pipeline.EventsKeep.{on_event-Keeps, reconcile-Keeps}

abbrev pub pipeline : Outside → List Event → List Event → List Event → Exec System (Unit {0})
pipeline out done failed events = do reconcile out done failed; for_each events (on_event out)

pipeline-Keeps :
    {R : Db → Db → Type 0} {Start : Db → Type 0} {Known : Content → Db → Type 0} {out : Outside}
    (d : PipelineDiscipline R Start Known) (done failed events : List Event)
    → OutsideObeys R out
    → Keeps d (pipeline out done failed events)
pipeline-Keeps d done failed events o =
    bind-Keeps d (reconcile-Keeps d o done failed) λ _. for_each-Keeps d events (on_event-Keeps d o)

module _ (id : String) (n : ℕ) (s : Db) (r : ContentColumns) (found : s.contents id ≡ some r) where
  abbrev after : Db
  after = (with_duration id n s (some r)).1

  found_at : (k : String) → (id == k) ≡ true → s.contents k ≡ some r
  found_at k same = rw (eq_of_test id k same) at found

  view_after : (k : String) → view_of after k ≡ view_of s k
  view_after k = elim (Bool-cases (id == k)) [
    | inl same ↦ rw (same, found_at k same) refl
    | inr other ↦ rw other refl
  ]

  identity_after : (k : String) → identity_of after k ≡ identity_of s k
  identity_after k = elim (Bool-cases (id == k)) [
    | inl same ↦ rw (same, found_at k same) refl
    | inr other ↦ rw other refl
  ]

  duration-Audited : Audited s after
  duration-Audited = record {
    fresh = [];
    logged = sym (append-nil s.logs);
    trail = λ k. subst (λ v. Trail k (view_of s k) [] v) (sym (view_after k)) Trail.done;
    legal = tt;
    same_identity = identity_after;
    stays_approved = λ k h. h;
  }

  duration-DatedOnce : DatedOnce s after
  duration-DatedOnce inv = (
    write_row-Dated id _ s (inv id r found) inv,
    λ k r' at known dated. elim (Bool-cases (id == k)) [
      | inl same ↦
          let this_row =
            some-injective _ _ (sym found ∙ ap s.contents (eq_of_test id k same) ∙ known) in
          (
            record r { duration_sec = some n },
            rw same refl,
            ap (λ x. x.published_at) this_row ∙ dated,
          )
      | inr other ↦ (r', rw other known, dated)
    ],
  )

duration-Guarantee :
    {R : Db → Db → Type 0} {Start : Db → Type 0} (id : String) (n : ℕ)
    → Preorder R
    → ((s : Db) (r : ContentColumns)
        → s.contents id ≡ some r
        → R s (with_duration id n s (some r)).1)
    → Guarantee R Start (set_duration id n)
unfolding set_duration
duration-Guarantee {R} id n order h = record { at = λ s _. go s (s.contents id) refl }
  where
    go :
        (s : Db) (o : Option ContentColumns)
        → s.contents id ≡ o
        → R s (with_duration id n s (s.contents id)).1
    go s none e = rw e (order.reflexive s)
    go s (some r) e = rw e (h s r e)

pub audit_discipline : PipelineDiscipline Audited (λ _. Unit) Known
audit_discipline = record {
  hops = audited;
  start_stable = λ s t a h. h;
  duration = λ id n. duration-Guarantee id n Audited-order (duration-Audited id n);
}

date_discipline : PipelineDiscipline DatedOnce AllDated LoadedDated
date_discipline = record {
  hops = dated_once;
  start_stable = λ s t a h. (a h).0;
  duration = λ id n. duration-Guarantee id n DatedOnce-order (duration-DatedOnce id n);
}

-- Whatever finished jobs a restart finds and whatever events follow, repeated ones among them: the
-- log rows added are legal transitions and account for the status and the generation of every
-- content, if the rest of the server, which runs while a handler waits, keeps to this too.
pub pipeline-Audited :
    (out : Outside) (done failed events : List Event) (s : System)
    → OutsideObeys Audited out
    → Audited s.db (pipeline out done failed events s).1.db
pipeline-Audited out done failed events s o =
    (pipeline-Keeps audit_discipline done failed events o).at s tt

-- Whatever finished jobs a restart finds and whatever events follow: a content has a publication
-- time exactly while it is published or archived and no publication time is lost or changed, if
-- the first holds at the start and the rest of the server keeps both.
pub pipeline-DatedOnce :
    (out : Outside) (done failed events : List Event) (s : System)
    → OutsideObeys DatedOnce out
    → AllDated s.db
    → let t = (pipeline out done failed events s).1 in AllDated t.db × KeepsDates s.db t.db
pipeline-DatedOnce out done failed events s o inv =
    (pipeline-Keeps date_discipline done failed events o).at s inv inv
