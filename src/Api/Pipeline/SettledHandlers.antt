-- ===== src/Api/Pipeline/SettledHandlers.antt =====
-- The handlers of the media queue and of the analysis queue leave a content alone that has left the
-- stages of processing.
use gachinol.Prelude.{
  ℕ, ◌≡◌, refl, subst, String, Bool, false, Option, none, some, List, ◌==◌, string_eq, arith,
}
use gachinol.Shared.ContentStatus.{
  ContentStatus, content_status_eq, preview_generating, regenerating,
}
use gachinol.Api.Exec.{Exec, when, for_each, ◌>>=◌, ◌>>◌}
use gachinol.Api.Contents.Workflow.Hop.{HopOpts}
use gachinol.Api.Media.Keys.{MediaJobType, transcode, auto_edit, preview, thumbnail}
use gachinol.Api.Media.Assets.{ProducedAsset}
use gachinol.Api.Pipeline.System.{AnalyzeResponse, System, Outside, upsert_analysis}
use gachinol.Api.Pipeline.Media.{
  Completed, transcoded, auto_edited, previewed, thumbnailed, FailedJob, Attempts,
  last_error_mutate, store_output, write_duration, sync_content_duration, on_transcoded,
  on_auto_edited, on_previewed, on_work_completed, on_completed, on_active, on_exhausted, on_failed,
  on_analysis_completed, on_analysis_failed,
}
use gachinol.Api.Pipeline.Events
use gachinol.Api.Pipeline.Events.{Event, handler, on_event}
use gachinol.Api.Pipeline.Quiet.{Quiet}
use gachinol.Api.Pipeline.Settled.{
  is_in_processing, Unmoved, IsPast, Settles, bind-Settles, paused-Settles, done-Settles,
  gets-Settles, attempt-Settles, if-Settles, for_each-Settles, modify-Settles, set_duration-Settles,
  hop-Settles, with_content-Settles,
}

not_editing :
    (st : ContentStatus)
    → is_in_processing st ≡ false
    → ((st == regenerating) ≡ false) × ((st == preview_generating) ≡ false)
not_editing st h = ground arith

module _ {out : Outside} (q : Quiet out) (id : String) where
  store_output-Settles :
      (g : ℕ) (job : String) (asset : ProducedAsset)
      → Settles q id (store_output out id g job asset)
  unfolding store_output
  store_output-Settles g job asset = paused-Settles q id (modify-Settles q id _ (λ s. (refl, refl)))

  write_duration-Settles : (n : Option ℕ) → Settles q id (write_duration out id n)
  write_duration-Settles none = done-Settles q id
  write_duration-Settles (some n) = paused-Settles q id (set_duration-Settles q id n)

  outputs-Settles :
      (g : ℕ) (job : String) (assets : List ProducedAsset) (n : Option ℕ)
      {m : Exec System (Unit {0})}
      → Settles q id m
      → Settles q id
          (do for_each assets (store_output out id g job); sync_content_duration out id n; m)
  unfolding sync_content_duration
  outputs-Settles g job assets n k =
      bind-Settles q id (for_each-Settles q id assets (store_output-Settles g job)) λ _.
        bind-Settles q id
          (attempt-Settles q id
            (paused-Settles q id (bind-Settles q id (gets-Settles q id _) write_duration-Settles)))
          λ _. k

  on_transcoded-Settles : (job : String) → Settles q id (on_transcoded out id job)
  unfolding on_transcoded when
  on_transcoded-Settles job = hop-Settles q id _ _ job _ _ refl (
      with_content-Settles q id _ λ r h.
        if-Settles q id _ (hop-Settles q id _ _ job _ _ refl (done-Settles q id))
          (hop-Settles q id _ _ job _ _ refl (done-Settles q id)))

  on_auto_edited-Settles :
      (again : Bool) (job : String) → Settles q id (on_auto_edited out id again job)
  unfolding on_auto_edited when
  on_auto_edited-Settles again job = with_content-Settles q id _ λ r h.
      let (not_again, not_first) = not_editing r.status h in
      rw (not_again, not_first) (done-Settles q id)

  on_previewed-Settles : (job : String) → Settles q id (on_previewed out id job)
  unfolding on_previewed
  on_previewed-Settles job =
      with_content-Settles q id _ λ r h. hop-Settles q id _ _ job _ _ refl (done-Settles q id)

  on_work_completed-Settles :
      (job : String) (g : ℕ) (work : Completed) → Settles q id (on_work_completed out id job g work)
  unfolding on_work_completed
  on_work_completed-Settles job g (transcoded assets) =
      outputs-Settles g job assets none (on_transcoded-Settles job)
  on_work_completed-Settles job g (auto_edited again assets) =
      outputs-Settles g job assets (some g) (on_auto_edited-Settles again job)
  on_work_completed-Settles job g (previewed asset) =
      bind-Settles q id (store_output-Settles g job asset) λ _. on_previewed-Settles job
  on_work_completed-Settles job g (thumbnailed asset) = store_output-Settles g job asset

  on_active-Settles :
      (type : MediaJobType) (job : String) → Settles q id (on_active out type id job)
  unfolding on_active
  on_active-Settles transcode job = hop-Settles q id _ _ job _ _ refl (done-Settles q id)
  on_active-Settles _ job = done-Settles q id

  on_exhausted-Settles :
      (type : MediaJobType) (job : String) (opts : HopOpts)
      → Settles q id (on_exhausted out type id job opts)
  unfolding on_exhausted
  on_exhausted-Settles transcode job opts =
      hop-Settles q id _ _ job _ _ refl (hop-Settles q id _ _ job opts _ refl (done-Settles q id))
  on_exhausted-Settles auto_edit job opts = with_content-Settles q id _ λ r h.
      rw (not_editing r.status h).0 (hop-Settles q id _ _ job opts _ refl (done-Settles q id))
  on_exhausted-Settles preview job opts = hop-Settles q id _ _ job opts _ refl (done-Settles q id)
  on_exhausted-Settles thumbnail job opts = done-Settles q id

  with_last_error :
      (a : Attempts) {f : HopOpts → Exec System (Unit {0})}
      → ((opts : HopOpts) → Settles q id (f opts))
      → Settles q id (last_error_mutate out a >>= f)
  unfolding last_error_mutate
  with_last_error a k = bind-Settles q id (gets-Settles q id _) k

  on_analysis_completed-Settles :
      (g : ℕ) (job : String) (response : AnalyzeResponse)
      → Settles q id (on_analysis_completed out id g job response)
  unfolding on_analysis_completed upsert_analysis when
  on_analysis_completed-Settles g job response = paused-Settles q id (
      bind-Settles q id (modify-Settles q id _ (λ s. (refl, refl))) λ _.
        hop-Settles q id _ _ job _ _ refl (
          hop-Settles q id _ _ job _ _ refl
            (hop-Settles q id _ _ job _ _ refl (done-Settles q id))))

  on_analysis_failed-Settles :
      (job : String) (a : Attempts) → Settles q id (on_analysis_failed out id job a)
  unfolding on_analysis_failed
  on_analysis_failed-Settles job a = if-Settles q id _ (done-Settles q id) (
      with_last_error a λ opts. hop-Settles q id _ _ job _ _ refl (
        hop-Settles q id _ _ job _ _ refl
          (hop-Settles q id _ _ job opts _ refl (done-Settles q id))))

on_failed-Settles :
    {out : Outside} (q : Quiet out) (job : FailedJob) → Settles q job.content_id (on_failed out job)
unfolding on_failed
on_failed-Settles q job = if-Settles q job.content_id _ (done-Settles q job.content_id) (
    with_last_error q job.content_id job.attempts
      λ opts. on_exhausted-Settles q job.content_id job.type job.id opts)

-- The content that an event of the media queue or of the analysis queue is about.
abbrev pub subject : Event → Option String
subject (Events.active type id job) = some id
subject (Events.completed job) = some job.content_id
subject (Events.failed job) = some job.content_id
subject (Events.analysis_completed id g job response) = some id
subject (Events.analysis_failed id job a) = some id
subject _ = none

abbrev SettlesFor : {out : Outside} → Quiet out → Option String → Exec System (Unit {0}) → Type 0
SettlesFor q none m = Unit
SettlesFor q (some id) m = Settles q id m

handler-Settles :
    {out : Outside} (q : Quiet out) (event : Event)
    → SettlesFor q (subject event) (handler out event)
unfolding on_completed
handler-Settles q (Events.active type id job) = on_active-Settles q id type job
handler-Settles q (Events.completed job) =
    on_work_completed-Settles q job.content_id job.id job.generation job.completed
handler-Settles q (Events.failed job) = on_failed-Settles q job
handler-Settles q (Events.analysis_completed id g job response) =
    on_analysis_completed-Settles q id g job response
handler-Settles q (Events.analysis_failed id job a) = on_analysis_failed-Settles q id job a
handler-Settles q Events.nothing_found = tt
handler-Settles q (Events.publish_active ids) = tt
handler-Settles q (Events.publish_completed job results) = tt
handler-Settles q (Events.publish_failed job ids a) = tt

-- An event of the media queue or of the analysis queue, late or repeated, for a content that is at
-- none of the statuses in which those jobs run, adds no job to a queue and leaves the status of the
-- content as it is, if nothing else runs meanwhile.
pub on_event-Unmoved :
    (out : Outside) (event : Event) (id : String) (s : System)
    → Quiet out
    → subject event ≡ some id
    → IsPast id s
    → Unmoved id s (on_event out event s).1
unfolding on_event
on_event-Unmoved out event id s q e past =
    (attempt-Settles q id (
        paused-Settles q id
          (subst (λ o. SettlesFor q o (handler out event)) e (handler-Settles q event)))).at
      s past
