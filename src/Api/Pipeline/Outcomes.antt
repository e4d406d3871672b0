-- ===== src/Api/Pipeline/Outcomes.antt =====
-- What single events lead to while nothing else runs.
use gachinol.Prelude.{
  ◌≡◌, ◌≢◌, refl, ap, ◌∙◌, subst, String, Bool, true, false, some, [], string_eq, test_of_ne, any,
  arith,
}
use gachinol.Shared.ContentStatus.{
  ContentStatus, content_status_eq, publishing, published, publish_failed, preview_generating,
  awaiting_reporter_review, awaiting_center_review, can_transition_content,
}
use gachinol.Api.Exec.{ok, err, continue, Result, pure, when, ◌>>=◌, ◌>>◌}
use gachinol.Api.Contents.Database.{
  ContentOrigin, content_origin_eq, reporter_upload, ContentColumns, system, Db,
}
use gachinol.Api.Contents.Workflow.Guards.{policy_guard}
use gachinol.Api.Contents.Workflow.Hop.{HopOpts, no_opts, hop_data}
use gachinol.Api.Contents.Workflow.Redelivery.{AtStatus, hop_data-status}
use gachinol.Api.Publications.Service.{Table}
use gachinol.Api.Publications.Report.{
  ContentPublishSummary, select, is_relevant_for, summarize_for_content,
}
use gachinol.Api.Publications.Summary.{is_pending, is_failed, summarize_for_content-Decides}
use gachinol.Api.Pipeline.System.{System, Outside, pause, load_content_row, system_hop}
use gachinol.Api.Pipeline.Media.{preview_review_target, on_previewed, last_error_note}
use gachinol.Api.Pipeline.Distribution.{only_failed, judge_content}
use gachinol.Api.Pipeline.Quiet.{Quiet, row_of, Passes, system_hop-lands}

same_end : (o : Result Bool × System) → (continue (λ _. pure (tt {0})) o).1 ≡ o.1
unfolding pure
same_end (ok b, t) = refl
same_end (err e, t) = refl

module _ {out : Outside} (q : Quiet out) (id job : String) (s : System) (r : ContentColumns)
    (found : s.db.contents id ≡ some r) where
  abbrev pub HopEnds : ContentStatus → ContentStatus → HopOpts → (Db → Type 0) → Type 0
  HopEnds from to opts P = P ((do system_hop out id from to job opts; pure (tt {0})) s).1.db

  -- The hop writes its row, and that is the end.
  pub writes :
      (from to : ContentStatus) (opts : HopOpts)
      → r.status ≡ from
      → Passes (row_of id r) from to job s.db
      → HopEnds from to opts
          (λ t. t.contents id ≡ some (hop_data (row_of id r) to opts.mutate s.db.clock r))
  unfolding ◌>>=◌
  writes from to opts st p =
      ap (λ x. x.db.contents id) (same_end (system_hop out id from to job opts s))
      ∙ (system_hop-lands q id job to opts s r found from st p).1

  arrives :
      (from to : ContentStatus) (opts : HopOpts)
      → r.status ≡ from
      → Passes (row_of id r) from to job s.db
      → HopEnds from to opts (AtStatus id to)
  arrives from to opts st p =
      (_, writes from to opts st p, hop_data-status (row_of id r) to opts.mutate s.db.clock r)

preview_policy :
    (id : String) (r : ContentColumns) (job : String)
    → policy_guard
        (row_of id r)
        preview_generating
        (preview_review_target r.origin)
        (system (some job))
      ≡ ok tt
unfolding policy_guard preview_review_target
preview_policy id r job = ground arith

preview_on_map :
    (o : ContentOrigin) → can_transition_content preview_generating (preview_review_target o) ≡ true
unfolding preview_review_target can_transition_content
preview_on_map reporter_upload = refl
preview_on_map _ = refl

to_reporter :
    (o : ContentOrigin) → o ≡ reporter_upload → preview_review_target o ≡ awaiting_reporter_review
unfolding preview_review_target
to_reporter o e = rw e refl

to_center :
    (o : ContentOrigin) → o ≢ reporter_upload → preview_review_target o ≡ awaiting_center_review
unfolding preview_review_target
to_center o e = rw (test_of_ne o reporter_upload e) refl

-- A finished preview takes a content that waits for it to the review of its reporter if it is a
-- reporter's upload, and else to the review of the center, if nothing else runs meanwhile.
pub on_previewed-arrives :
    (out : Outside) (id job : String) (s : System) (r : ContentColumns)
    → Quiet out
    → s.db.contents id ≡ some r
    → r.status ≡ preview_generating
    → let t = (on_previewed out id job s).1 in
      (r.origin ≡ reporter_upload → AtStatus id awaiting_reporter_review t.db)
      × (r.origin ≢ reporter_upload → AtStatus id awaiting_center_review t.db)
unfolding on_previewed pause load_content_row ◌>>=◌
on_previewed-arrives out id job s r q found st =
    let there : AtStatus id (preview_review_target r.origin) (on_previewed out id job s).1.db =
      rw (q.at_pause s, found)
        (arrives q id job s r found _ _ no_opts st (record {
          on_map = preview_on_map r.origin;
          by_policy = preview_policy id r job;
          gate = λ e. cc;
        })) in
    (
      λ e.
          subst (λ st. AtStatus id st (on_previewed out id job s).1.db) (to_reporter r.origin e)
            there,
      λ e.
          subst (λ st. AtStatus id st (on_previewed out id job s).1.db) (to_center r.origin e)
            there,
    )

abbrev pub picked : String → System → Table
picked id s = select (is_relevant_for id) s.publications

-- What is to become of a content whose publications are `rows`.
pub record Verdict (id : String) (rows : Table) (s t : System) : Type 0 where
  pub all_out :
      rows ≢ []
      → any is_pending rows ≡ false
      → any is_failed rows ≡ false
      → AtStatus id published t.db
  pub some_failed :
      any is_pending rows ≡ false → any is_failed rows ≡ true → AtStatus id publish_failed t.db
  pub waiting : any is_pending rows ≡ true → t ≡ s
  pub none_there : rows ≡ [] → t ≡ s

true_or_false : {b : Bool} → b ≡ true → b ≡ false → ⊥
true_or_false h k = cc

is_false : (b : Bool) → (b ≡ true → ⊥) → b ≡ false
is_false true h = absurd (h refl)
is_false false h = refl

waits : (sum : ContentPublishSummary) → sum.any_pending ≡ true → only_failed sum ≡ false
waits sum h = ground arith

unfailed : (sum : ContentPublishSummary) → sum.any_failed ≡ false → only_failed sum ≡ false
unfailed sum h = rw h refl

module _ {out : Outside} (q : Quiet out) (id job : String) (s : System) (r : ContentColumns)
    (found : s.db.contents id ≡ some r) (st : r.status ≡ publishing) where
  abbrev summary : ContentPublishSummary
  summary = summarize_for_content id s.publications

  all_out : summary.all_published ≡ true → AtStatus id published (judge_content out job id s).1.db
  unfolding judge_content pause ◌>>=◌ policy_guard can_transition_content
  all_out h =
      rw (q.at_pause s, h)
        (arrives q id job s r found publishing published no_opts st
          (record { on_map = refl; by_policy = refl; gate = λ e. cc }))

  fails :
      summary.all_published ≡ false
      → summary.any_failed ≡ true
      → summary.any_pending ≡ false
      → AtStatus id publish_failed (judge_content out job id s).1.db
  unfolding judge_content pause ◌>>=◌ policy_guard can_transition_content when
  fails h k l =
      rw (q.at_pause s, h, k, l)
        (arrives q id job s r found publishing publish_failed
          (last_error_note out.texts.some_channels_failed s.db.clock) st
          (record { on_map = refl; by_policy = refl; gate = λ e. cc }))

  rests :
      summary.all_published ≡ false
      → only_failed summary ≡ false
      → (judge_content out job id s).1 ≡ s
  unfolding judge_content pause ◌>>=◌ when
  rests h k = rw (q.at_pause s, h, k) refl

-- The verdict on a content that is being published, if nothing else runs meanwhile: it is published
-- if it has publications that count, none of them waits and none has failed; the publishing has
-- failed if one has and none waits; and while one waits, or there is none, nothing changes.
pub judge_content-Verdict :
    (out : Outside) (id job : String) (s : System) (r : ContentColumns)
    → Quiet out
    → s.db.contents id ≡ some r
    → r.status ≡ publishing
    → Verdict id (picked id s) s (judge_content out job id s).1
judge_content-Verdict out id job s r q found st =
    let sum = summarize_for_content id s.publications in
    let (p, f, all_iff) = summarize_for_content-Decides id s.publications in
    record {
      all_out = λ n no_wait no_fail.
          all_out q id job s r found st (all_iff.1 (n, p ∙ no_wait, f ∙ no_fail));
      some_failed = λ no_wait fail.
          fails q id job s r found st (is_false _ λ e. true_or_false (f ∙ fail) (all_iff.0 e).2)
            (f ∙ fail) (p ∙ no_wait);
      waiting = λ wait.
          rests q id job s r found st (is_false _ λ e. true_or_false (p ∙ wait) (all_iff.0 e).1)
            (waits sum (p ∙ wait));
      none_there = λ empty.
          rests q id job s r found st (is_false _ λ e. (all_iff.0 e).0 empty)
            (unfailed sum (f ∙ ap (any is_failed) empty));
    }
