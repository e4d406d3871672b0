-- ===== src/Api/Pipeline/HandlersKeep.antt =====
-- The handlers of the media queue and of the analysis queue keep to a discipline of the workflow.
use gachinol.Prelude.{ℕ, refl, String, Bool, Option, none, some, List}
use gachinol.Shared.ContentStatus.{ContentStatus}
use gachinol.Api.Exec.{Exec, pure, for_each, ◌>>=◌, ◌>>◌}
use gachinol.Api.Contents.Database.{Content, Db}
use gachinol.Api.Contents.Workflow.Hop.{HopOpts}
use gachinol.Api.Media.Keys.{MediaJobType, transcode, auto_edit, preview, thumbnail}
use gachinol.Api.Media.Assets.{ProducedAsset}
use gachinol.Api.Pipeline.System.{
  AnalyzeResponse, System, Outside, upsert_analysis, pause, load_content_row, system_hop,
}
use gachinol.Api.Pipeline.Media.{
  transcoded, auto_edited, previewed, thumbnailed, FailedJob, Attempts, if_found, last_error_mutate,
  store_output, write_duration, sync_content_duration, on_transcoded, on_regenerated,
  on_auto_edited, on_previewed, Completed, on_work_completed, on_active, on_exhausted, on_failed,
  on_analysis_completed, on_analysis_failed,
}
use gachinol.Api.Pipeline.Keeps.{
  PipelineDiscipline, OutsideObeys, Keeps, bind-Keeps, pure-Keeps, gets-Keeps, attempt-Keeps,
  if-Keeps, when-Keeps, on_db-Keeps, for_each-Keeps, modify-Keeps, load_content_row-Keeps,
  paused-Keeps, system_hop-Keeps,
}
use gachinol.Api.Pipeline.ProducersKeep.{
  enqueue_auto_edit-Keeps, enqueue_preview-Keeps, enqueue_thumbnail-Keeps, enqueue_analysis-Keeps,
}

module _ {R : Db → Db → Type 0} {Start : Db → Type 0} {Known : Content → Db → Type 0}
    (d : PipelineDiscipline R Start Known) {out : Outside} (o : OutsideObeys R out) where
  pub hop_then :
      (id : String) (from to : ContentStatus) (job : String) (opts : HopOpts) {A : Type 0}
      {f : Bool → Exec System A}
      → ((applied : Bool) → Keeps d (f applied))
      → Keeps d (system_hop out id from to job opts >>= f)
  hop_then id from to job opts k = bind-Keeps d (system_hop-Keeps d o id from to job opts) k

  pub last_hop :
      (id : String) (from to : ContentStatus) (job : String) (opts : HopOpts)
      → Keeps d (do system_hop out id from to job opts; pure tt)
  last_hop id from to job opts = hop_then id from to job opts λ _. pure-Keeps d tt

  if_found-Keeps :
      (c : Option Content) {f : Content → Exec System (Unit {0})}
      → ((c : Content) → Keeps d (f c))
      → Keeps d (if_found c f)
  if_found-Keeps none g = pure-Keeps d tt
  if_found-Keeps (some c) g = g c

  with_content :
      (id : String) {A : Type 0} {f : Option Content → Exec System A}
      → ((c : Option Content) → Keeps d (f c))
      → Keeps d (do pause out; c ← load_content_row id; f c)
  with_content id k = paused-Keeps d o (bind-Keeps d (load_content_row-Keeps d id) k)

  store_output-Keeps :
      (id : String) (g : ℕ) (job : String) (asset : ProducedAsset)
      → Keeps d (store_output out id g job asset)
  unfolding store_output
  store_output-Keeps id g job asset = paused-Keeps d o (modify-Keeps d _ (λ s. refl))

  write_duration-Keeps : (id : String) (n : Option ℕ) → Keeps d (write_duration out id n)
  write_duration-Keeps id none = pure-Keeps d tt
  write_duration-Keeps id (some n) = paused-Keeps d o (on_db-Keeps d _ (d.duration id n))

  sync_content_duration-Keeps :
      (id : String) (g : Option ℕ) → Keeps d (sync_content_duration out id g)
  unfolding sync_content_duration
  sync_content_duration-Keeps id g =
      attempt-Keeps d
        (paused-Keeps d o (bind-Keeps d (gets-Keeps d _) λ n. write_duration-Keeps id n))

  on_transcoded-Keeps : (id job : String) → Keeps d (on_transcoded out id job)
  unfolding on_transcoded
  on_transcoded-Keeps id job = hop_then id _ _ job _ λ _. with_content id λ c.
      if-Keeps d _
        (hop_then id _ _ job _ λ applied. when-Keeps d applied (
          if_found-Keeps c
            λ c. bind-Keeps d (enqueue_analysis-Keeps d o c) λ _. enqueue_thumbnail-Keeps d o c))
        (hop_then id _ _ job _ λ applied. when-Keeps d applied (
          if_found-Keeps c λ c.
            bind-Keeps d (enqueue_auto_edit-Keeps d o c _ _) λ _. enqueue_thumbnail-Keeps d o c))

  on_regenerated-Keeps :
      (c : Content) (again : Bool) (job : String) → Keeps d (on_regenerated out c again job)
  unfolding on_regenerated
  on_regenerated-Keeps c again job = hop_then c.id _ _ job _ λ applied.
      bind-Keeps d
        (when-Keeps d applied
          (if-Keeps d _ (enqueue_analysis-Keeps d o c) (enqueue_preview-Keeps d o c)))
        λ _.
          paused-Keeps d o
            (bind-Keeps d (on_db-Keeps d _ (d.hops.resolve c.id job)) λ _. pure-Keeps d tt)

  on_auto_edited-Keeps :
      (id : String) (again : Bool) (job : String) → Keeps d (on_auto_edited out id again job)
  unfolding on_auto_edited
  on_auto_edited-Keeps id again job = with_content id λ c. if_found-Keeps c λ c.
      if-Keeps d _ (on_regenerated-Keeps c again job) (when-Keeps d _ (enqueue_preview-Keeps d o c))

  on_previewed-Keeps : (id job : String) → Keeps d (on_previewed out id job)
  unfolding on_previewed
  on_previewed-Keeps id job = with_content id λ c. if_found-Keeps c λ c. last_hop id _ _ job _

  outputs-Keeps :
      (id : String) (g : ℕ) (job : String) (assets : List ProducedAsset) (n : Option ℕ)
      {m : Exec System (Unit {0})}
      → Keeps d m
      → Keeps d (do for_each assets (store_output out id g job); sync_content_duration out id n; m)
  outputs-Keeps id g job assets n k =
      bind-Keeps d (for_each-Keeps d assets (store_output-Keeps id g job))
        λ _. bind-Keeps d (sync_content_duration-Keeps id n) λ _. k

  pub on_work_completed-Keeps :
      (id job : String) (g : ℕ) (work : Completed) → Keeps d (on_work_completed out id job g work)
  unfolding on_work_completed
  on_work_completed-Keeps id job g (transcoded assets) =
      outputs-Keeps id g job assets none (on_transcoded-Keeps id job)
  on_work_completed-Keeps id job g (auto_edited again assets) =
      outputs-Keeps id g job assets (some g) (on_auto_edited-Keeps id again job)
  on_work_completed-Keeps id job g (previewed asset) =
      bind-Keeps d (store_output-Keeps id g job asset) λ _. on_previewed-Keeps id job
  on_work_completed-Keeps id job g (thumbnailed asset) = store_output-Keeps id g job asset

  pub on_active-Keeps :
      (type : MediaJobType) (id job : String) → Keeps d (on_active out type id job)
  unfolding on_active
  on_active-Keeps transcode id job = last_hop id _ _ job _
  on_active-Keeps _ id job = pure-Keeps d tt

  on_exhausted-Keeps :
      (type : MediaJobType) (id job : String) (opts : HopOpts)
      → Keeps d (on_exhausted out type id job opts)
  unfolding on_exhausted
  on_exhausted-Keeps transcode id job opts = hop_then id _ _ job _ λ _. last_hop id _ _ job opts
  on_exhausted-Keeps auto_edit id job opts = with_content id λ c.
      bind-Keeps d
        (if-Keeps d _ (system_hop-Keeps d o id _ _ job opts) (system_hop-Keeps d o id _ _ job opts))
        λ _. pure-Keeps d tt
  on_exhausted-Keeps preview id job opts = last_hop id _ _ job opts
  on_exhausted-Keeps thumbnail id job opts = pure-Keeps d tt

  with_last_error :
      (a : Attempts) {f : HopOpts → Exec System (Unit {0})}
      → ((opts : HopOpts) → Keeps d (f opts))
      → Keeps d (last_error_mutate out a >>= f)
  unfolding last_error_mutate
  with_last_error a k = bind-Keeps d (gets-Keeps d _) k

  pub on_failed-Keeps : (job : FailedJob) → Keeps d (on_failed out job)
  unfolding on_failed
  on_failed-Keeps job =
      if-Keeps d _ (pure-Keeps d tt) (
        with_last_error job.attempts λ opts. on_exhausted-Keeps job.type job.content_id job.id opts)

  pub on_analysis_completed-Keeps :
      (id : String) (g : ℕ) (job : String) (response : AnalyzeResponse)
      → Keeps d (on_analysis_completed out id g job response)
  unfolding on_analysis_completed upsert_analysis
  on_analysis_completed-Keeps id g job response = paused-Keeps d o (
      bind-Keeps d (modify-Keeps d _ (λ s. refl)) λ _. hop_then id _ _ job _ λ _.
        hop_then id _ _ job _ λ _. hop_then id _ _ job _ λ applied.
          when-Keeps d applied
            (with_content id λ c. if_found-Keeps c λ c. enqueue_auto_edit-Keeps d o c _ _))

  pub on_analysis_failed-Keeps :
      (id job : String) (a : Attempts) → Keeps d (on_analysis_failed out id job a)
  unfolding on_analysis_failed
  on_analysis_failed-Keeps id job a = if-Keeps d _ (pure-Keeps d tt) (
      with_last_error a
        λ opts. hop_then id _ _ job _ λ _. hop_then id _ _ job _ λ _. last_hop id _ _ job opts)
