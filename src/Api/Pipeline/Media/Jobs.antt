-- ===== src/Api/Pipeline/Media/Jobs.antt =====
-- pipeline.service.ts: what the handlers read of a job, and what they derive from it.
use gachinol.Prelude.{
  ℕ, String, Bool, Option, none, some, List, ◌==◌, string_eq, take, leb, if◌then◌else◌,
}
use gachinol.Shared.ContentStatus.{
  ContentStatus, content_status_eq, awaiting_reporter_review, awaiting_center_review,
}
use gachinol.Api.Contents.Database.{Text, ContentOrigin, content_origin_eq, reporter_upload}
use gachinol.Api.Contents.Workflow.Hop.{failure, HopOpts}
use gachinol.Api.Media.Keys.{MediaJobType}
use gachinol.Api.Media.Assets.{ProducedAsset}

-- Where a content goes once its preview is there: to its reporter, if it has one.
unfoldable pub preview_review_target : ContentOrigin → ContentStatus
preview_review_target origin =
    if origin == reporter_upload then awaiting_reporter_review else awaiting_center_review

-- The type of a completed job with its return value, and of its payload what the handler reads.
pub data Completed : Type 0 where
  transcoded : List ProducedAsset → Completed
  auto_edited : Bool → List ProducedAsset → Completed  -- `reanalyze` of the payload
  previewed : ProducedAsset → Completed
  thumbnailed : ProducedAsset → Completed

pub record CompletedJob : Type 0 where
  pub id : String
  pub content_id : String
  pub generation : ℕ
  pub completed : Completed

-- `job.attemptsMade`, `job.opts.attempts` and `job.failedReason`
pub record Attempts : Type 0 where
  pub made : ℕ
  pub allowed : Option ℕ
  pub failed_reason : Option Text

pub record FailedJob : Type 0 where
  pub id : String
  pub type : MediaJobType
  pub content_id : String
  pub attempts : Attempts

abbrev pub allowed_or_one : Option ℕ → ℕ
allowed_or_one none = 1
allowed_or_one (some n) = n

unfoldable pub is_exhausted : Attempts → Bool
is_exhausted a = leb (allowed_or_one a.allowed) a.made

abbrev pub reason_or : Text → Option Text → Text
reason_or default_text none = default_text
reason_or default_text (some reason) = reason

unfoldable pub last_error_note : Text → ℕ → HopOpts
last_error_note message now = record { note = none; mutate = failure (take 500 message) now }
