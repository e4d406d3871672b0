-- ===== src/Api/Pipeline/ProducersKeep.antt =====
-- The producers leave the database to the rest of the server.
use gachinol.Prelude.{refl, String, Bool, Option, none, some}
use gachinol.Api.Contents.Database.{Content, Db}
use gachinol.Api.Media.Assets.{MediaAsset}
use gachinol.Api.Pipeline.System.{MediaPayload, AddedJob, Outside}
use gachinol.Api.Pipeline.Producers.{
  or_original, require_original, require_processing_source, require_edit_source, add_job, add_media,
  enqueue_transcode, enqueue_auto_edit, enqueue_preview, enqueue_thumbnail, enqueue_analysis,
}
use gachinol.Api.Pipeline.Keeps.{
  PipelineDiscipline, OutsideObeys, Keeps, bind-Keeps, pure-Keeps, lift-Keeps, gets-Keeps, if-Keeps,
  modify-Keeps, pause-Keeps,
}

module _ {R : Db → Db → Type 0} {Start : Db → Type 0} {Known : Content → Db → Type 0}
    (d : PipelineDiscipline R Start Known) {out : Outside} (o : OutsideObeys R out) where
  require_original-Keeps : (c : Content) → Keeps d (require_original out c)
  unfolding require_original
  require_original-Keeps c =
      bind-Keeps d (pause-Keeps d o) λ _. bind-Keeps d (gets-Keeps d _) λ found. lift-Keeps d _

  or_original-Keeps : (c : Content) (a : Option MediaAsset) → Keeps d (or_original out c a)
  or_original-Keeps c none = require_original-Keeps c
  or_original-Keeps c (some a) = pure-Keeps d a

  require_processing_source-Keeps : (c : Content) → Keeps d (require_processing_source out c)
  unfolding require_processing_source
  require_processing_source-Keeps c =
      bind-Keeps d (pause-Keeps d o)
        λ _. bind-Keeps d (gets-Keeps d _) λ edited. or_original-Keeps c edited

  require_edit_source-Keeps : (c : Content) → Keeps d (require_edit_source out c)
  unfolding require_edit_source
  require_edit_source-Keeps c =
      if-Keeps d _
        (bind-Keeps d (pause-Keeps d o)
          λ _. bind-Keeps d (gets-Keeps d _) λ edited. or_original-Keeps c edited)
        (require_original-Keeps c)

  pub add_job-Keeps : (job : AddedJob) → Keeps d (add_job out job)
  unfolding add_job
  add_job-Keeps job =
      bind-Keeps d (pause-Keeps d o)
        λ _. bind-Keeps d (lift-Keeps d _) λ _. modify-Keeps d _ (λ s. refl)

  add_media-Keeps :
      (payload : MediaPayload) (c : Content) (source : MediaAsset)
      → Keeps d (add_media out payload c source)
  unfolding add_media
  add_media-Keeps payload c source = if-Keeps d _ (pure-Keeps d tt) (add_job-Keeps _)

  pub enqueue_transcode-Keeps : (c : Content) → Keeps d (enqueue_transcode out c)
  unfolding enqueue_transcode
  enqueue_transcode-Keeps c =
      bind-Keeps d (require_original-Keeps c) λ source. add_media-Keeps _ c source

  pub enqueue_auto_edit-Keeps :
      (c : Content) (request : Option String) (again : Bool)
      → Keeps d (enqueue_auto_edit out c request again)
  unfolding enqueue_auto_edit
  enqueue_auto_edit-Keeps c request again =
      bind-Keeps d (require_edit_source-Keeps c) λ source. add_media-Keeps _ c source

  pub enqueue_preview-Keeps : (c : Content) → Keeps d (enqueue_preview out c)
  unfolding enqueue_preview
  enqueue_preview-Keeps c =
      bind-Keeps d (require_processing_source-Keeps c) λ source. add_media-Keeps _ c source

  pub enqueue_thumbnail-Keeps : (c : Content) → Keeps d (enqueue_thumbnail out c)
  unfolding enqueue_thumbnail
  enqueue_thumbnail-Keeps c =
      bind-Keeps d (require_processing_source-Keeps c) λ source. add_media-Keeps _ c source

  pub enqueue_analysis-Keeps : (c : Content) → Keeps d (enqueue_analysis out c)
  unfolding enqueue_analysis
  enqueue_analysis-Keeps c = if-Keeps d _ (pure-Keeps d tt) (
      bind-Keeps d (require_original-Keeps c) λ original.
        bind-Keeps d (pause-Keeps d o)
          λ _. bind-Keeps d (gets-Keeps d _) λ duration. add_job-Keeps _)
