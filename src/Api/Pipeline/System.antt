-- ===== src/Api/Pipeline/System.antt =====
-- What the handlers of services/api/src/pipeline/pipeline.service.ts read and write: the database,
-- with the table of services/api/src/analysis/ai-analyses.service.ts, and the jobs that they add to
-- the queues. BullMQ is a parameter: `Outside.add` is what it answers to `queue.add`, and a job that
-- it accepts is recorded in `added`. `Outside.between` is what the rest of the server does while a
-- handler waits.
use gachinol.Prelude.{
  ℕ, String, Bool, ◌&&◌, Option, none, some, List, ◌==◌, string_eq, number_eq, if◌then◌else◌,
}
use gachinol.Shared.ContentStatus.{ContentStatus}
use gachinol.Api.Exec.{Result, ok, err, Exec, internal, ◌>>◌}
use gachinol.Api.Contents.Database.{Text, ContentColumns, Content, Db, find_content, write_row}
use gachinol.Api.Contents.Workflow.Hop.{HopOpts}
use gachinol.Api.Contents.Workflow.Operations.{Environment, apply_system_transition}
use gachinol.Api.Publications.Service.{Table}
use gachinol.Api.Media.Assets.{Assets}

-- `AnalyzeResponse` of packages/shared/src/analysis/analysis-job.ts, its JSON values as texts.
pub record AnalyzeResponse : Type 0 where
  pub vision : Option Text
  pub text : Option Text
  pub recommendation_score : Option Text
  pub model_info : Option Text

pub record AiAnalysis : Type 0 where
  pub id : String
  pub response : AnalyzeResponse
  pub created_by_job_id : String
  pub completed_at : ℕ

pub data MediaPayload : Type 0 where
  transcode : List String → MediaPayload  -- the labels of the renditions
  auto_edit : Option String → Bool → MediaPayload  -- the revision request, and whether to analyse again
  preview : ℕ → ℕ → MediaPayload  -- the greatest height and bitrate
  thumbnail : MediaPayload

pub record MediaJobData : Type 0 where
  pub payload : MediaPayload
  pub content_id : String
  pub source_asset_id : String
  pub generation : ℕ
  pub source_bucket : String
  pub source_key : String
  pub output_bucket : String
  pub output_key_prefix : String

pub record AnalysisJobData : Type 0 where
  pub content_id : String
  pub asset_id : String
  pub generation : ℕ
  pub source_bucket : String
  pub source_key : String
  pub duration_sec : Option ℕ

-- `PublishTargetItem` of services/api/src/distribution/distribution-job.ts, but for its message.
pub record PublishTargetItem : Type 0 where
  pub publication_id : String
  pub platform : String
  pub external_channel_id : String
  pub credential_ref : String
  pub idempotency_key : String

pub data JobData : Type 0 where
  media_job : MediaJobData → JobData
  analysis_job : AnalysisJobData → JobData
  publish_job : List PublishTargetItem → JobData

pub record AddedJob : Type 0 where
  pub job_id : String
  pub job : JobData
  pub priority : ℕ

pub record System : Type 0 where
  pub db : Db
  pub publications : Table
  pub assets : Assets
  pub analyses : String → ℕ → Option AiAnalysis  -- by content and generation
  pub added : List AddedJob

-- The environment variables that the modelled code reads; a queue is there if Redis is configured.
pub record Config : Type 0 where
  pub bucket : String
  pub rendition_height : ℕ
  pub preview_height : ℕ
  pub preview_bitrate_kbps : ℕ
  pub media_queue : Bool
  pub analysis_queue : Bool

-- The Korean messages of the handlers.
pub record Texts : Type 0 where
  pub unknown_failure : Text
  pub some_channels_failed : Text
  pub publish_exhausted : Text
  pub publish_error : Text

pub record Outside : Type 0 where
  pub config : Config
  pub open config use *
  pub texts : Texts
  pub workflow : Environment
  pub between : System → System
  pub add : AddedJob → Result (Unit {0})
  pub new_id : System → String

unfoldable pub on_db : {A : Type 0} → Exec Db A → Exec System A
on_db m s = let (r, db') = m s.db in (r, record s { db = db' })

unfoldable pub modify : (System → System) → Exec System (Unit {0})
modify f s = (ok tt, f s)

-- `content.update({ where: { id }, data: { durationSec } })`; a missing row is an error.
abbrev pub with_duration : String → ℕ → Db → Option ContentColumns → Result (Unit {0}) × Db
with_duration id n db none = (err internal, db)
with_duration id n db (some r) =
    (ok tt, record db { contents = write_row id (record r { duration_sec = some n }) db.contents })

unfoldable pub set_duration : String → ℕ → Exec Db (Unit {0})
set_duration id n db = with_duration id n db (db.contents id)

abbrev analysis_row : String → String → AnalyzeResponse → ℕ → Option AiAnalysis → AiAnalysis
analysis_row new_id job_id response now none = record {
  id = new_id;
  response = response;
  created_by_job_id = job_id;
  completed_at = now;
}
analysis_row new_id job_id response now (some a) = record a {
  response = response;
  completed_at = now;
}

-- `AiAnalysesService.upsert`: the id and the job of a row that is there are kept.
unfoldable pub upsert_analysis : String → String → ℕ → String → AnalyzeResponse → System → System
upsert_analysis new_id content_id generation job_id response s = record s {
  analyses = λ c g.
      if c == content_id && g == generation
      then some (analysis_row new_id job_id response s.db.clock (s.analyses content_id generation))
      else s.analyses c g;
}

unfoldable pub load_content_row : String → Exec System (Option Content)
load_content_row id s = (ok (find_content id s.db), s)

module _ (out : Outside) where
  unfoldable pub pause : Exec System (Unit {0})
  pause s = (ok tt, out.between s)

  -- `workflow.applySystemTransition`
  unfoldable pub system_hop :
      String → ContentStatus → ContentStatus → String → HopOpts → Exec System Bool
  system_hop content_id from to job_id opts = do
    pause
    on_db (apply_system_transition out.workflow content_id from to job_id opts)
