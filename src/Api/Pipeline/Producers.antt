-- ===== src/Api/Pipeline/Producers.antt =====
-- services/api/src/queue/queue-producer.service.ts and
-- services/api/src/analysis/analysis-producer.service.ts: which file a job reads, and the job that
-- is added. `queue.remove`, whose error is dropped, and the retry options of a job are left out.
use gachinol.Prelude.{
  ℕ, ◌-◌, String, Bool, false, Option, none, some, [], ◌∷◌, ◌++◌, template, decimal, ltb, not,
  if◌then◌else◌,
}
use gachinol.Shared.ContentStatus.{
  ContentStatus, processing, analyzing, preview_generating, regenerating,
}
use gachinol.Api.Exec.{Result, ok, err, internal, Exec, pure, lift, gets, ◌>>=◌, ◌>>◌}
use gachinol.Api.Contents.Database.{ContentPriority, normal, urgent, Content}
use gachinol.Api.Media.Keys.{MediaJobType, media_job_id, analysis_job_id, media_output_key_prefix}
use gachinol.Api.Media.Keys
use gachinol.Api.Media.Assets.{MediaAsset, find_original, find_edited_master, find_duration_sec}
use gachinol.Api.Pipeline.System.{
  MediaPayload, transcode, auto_edit, preview, thumbnail, media_job, analysis_job, AddedJob, System,
  Outside, modify, pause,
}

-- services/api/src/media/asset-selectors.ts
unfoldable pub rendition_label_for_height : ℕ → String
rendition_label_for_height height = template (decimal height ∷ "p" ∷ [])

abbrev job_type : MediaPayload → MediaJobType
job_type (transcode labels) = Keys.transcode
job_type (auto_edit request reanalyze) = Keys.auto_edit
job_type (preview height bitrate) = Keys.preview
job_type thumbnail = Keys.thumbnail

abbrev pub job_priority : ContentPriority → ℕ
job_priority urgent = 1
job_priority normal = 5

abbrev or_fail : Option MediaAsset → Result MediaAsset
or_fail none = err internal
or_fail (some a) = ok a

module _ (out : Outside) where
  unfoldable pub require_original : Content → Exec System MediaAsset
  require_original content = do
    pause out
    found ← gets (λ s. find_original content.id 1 s.assets)
    lift (or_fail found)

  abbrev pub or_original : Content → Option MediaAsset → Exec System MediaAsset
  or_original content none = require_original content
  or_original content (some a) = pure a

  -- The edited master of this generation, else the original.
  unfoldable pub require_processing_source : Content → Exec System MediaAsset
  require_processing_source content = do
    pause out
    edited ← gets (λ s. find_edited_master content.id content.generation s.assets)
    or_original content edited

  -- After a regeneration the edited master of the generation before, else the original.
  unfoldable pub require_edit_source : Content → Exec System MediaAsset
  require_edit_source content =
      if ltb 1 content.generation
      then (do
        pause out
        edited ← gets (λ s. find_edited_master content.id (content.generation - 1) s.assets)
        or_original content edited)
      else require_original content

  abbrev pub media_job_of : MediaPayload → Content → MediaAsset → AddedJob
  media_job_of payload content source = record {
    job_id = media_job_id (job_type payload) content.id content.generation;
    job = media_job (record {
      payload = payload;
      content_id = content.id;
      source_asset_id = source.id;
      generation = content.generation;
      source_bucket = out.bucket;
      source_key = source.storage_key;
      output_bucket = out.bucket;
      output_key_prefix = media_output_key_prefix content.id content.generation;
    });
    priority = job_priority content.priority;
  }

  unfoldable pub add_job : AddedJob → Exec System (Unit {0})
  add_job job = do
    pause out
    lift (out.add job)
    modify (λ s. record s { added = s.added ++ job ∷ [] })

  unfoldable pub add_media : MediaPayload → Content → MediaAsset → Exec System (Unit {0})
  add_media payload content source =
      if not out.media_queue then pure tt else add_job (media_job_of payload content source)

  unfoldable pub enqueue_transcode : Content → Exec System (Unit {0})
  enqueue_transcode content = do
    original ← require_original content
    add_media (transcode (rendition_label_for_height out.rendition_height ∷ [])) content original

  unfoldable pub enqueue_auto_edit : Content → Option String → Bool → Exec System (Unit {0})
  enqueue_auto_edit content revision_request_id reanalyze = do
    source ← require_edit_source content
    add_media (auto_edit revision_request_id reanalyze) content source

  unfoldable pub enqueue_preview : Content → Exec System (Unit {0})
  enqueue_preview content = do
    source ← require_processing_source content
    add_media (preview out.preview_height out.preview_bitrate_kbps) content source

  unfoldable pub enqueue_thumbnail : Content → Exec System (Unit {0})
  enqueue_thumbnail content = do
    source ← require_processing_source content
    add_media thumbnail content source

  abbrev analysis_job_of : Content → MediaAsset → Option ℕ → AddedJob
  analysis_job_of content original duration_sec = record {
    job_id = analysis_job_id content.id content.generation;
    job = analysis_job (record {
      content_id = content.id;
      asset_id = original.id;
      generation = content.generation;
      source_bucket = out.bucket;
      source_key = original.storage_key;
      duration_sec = duration_sec;
    });
    priority = job_priority content.priority;
  }

  unfoldable pub enqueue_analysis : Content → Exec System (Unit {0})
  enqueue_analysis content = if not out.analysis_queue then pure tt else (do
    original ← require_original content
    pause out
    duration_sec ← gets (λ s. find_duration_sec content.id none s.assets)
    add_job (analysis_job_of content original duration_sec))

  -- `requeueForStatus` of the media producer. A new upload starts on the client.
  unfoldable pub requeue_for_status : Content → ContentStatus → Exec System (Unit {0})
  requeue_for_status content processing = enqueue_transcode content
  requeue_for_status content preview_generating = enqueue_auto_edit content none false
  requeue_for_status content regenerating = enqueue_auto_edit content none false
  requeue_for_status content _ = pure tt

  -- `requeueForStatus` of the analysis producer.
  unfoldable pub requeue_analysis_for_status : Content → ContentStatus → Exec System (Unit {0})
  requeue_analysis_for_status content analyzing = enqueue_analysis content
  requeue_analysis_for_status content _ = pure tt
