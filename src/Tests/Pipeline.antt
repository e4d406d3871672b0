-- ===== src/Tests/Pipeline.antt =====
-- The theorems on the pipeline and on media assets, for one content and its files.
use gachinol.Prelude.{◌≡◌, refl, inl, true, false, none, some, [], ◌∷◌, string_eq}
use gachinol.Shared.ContentStatus.{
  ContentStatus, draft, processing, preview_generating, awaiting_reporter_review, publishing,
}
use gachinol.Shared.PublicationStatus
use gachinol.Api.Exec.{ok}
use gachinol.Api.Contents.Database.{Db}
use gachinol.Api.Contents.Workflow.Audit.{Audited, Audited-order}
use gachinol.Api.Contents.Workflow.Redelivery.{AtStatus}
use gachinol.Api.Contents.Workflow.Release.{AllDated, KeepsDates, DatedOnce}
use gachinol.Api.Publications.Service.{Publication}
use gachinol.Api.Media.Keys.{transcode}
use gachinol.Api.Media.Assets.{
  Assets, ProducedAsset, Measured, original, rendition, ready, upsert_output, upserts_output, write,
}
use gachinol.Api.Media.AssetLaws.{OneRowEach, upsert_output-again, write-OneRowEach}
use gachinol.Api.Pipeline.System.{System, Outside}
use gachinol.Api.Pipeline.Media.{CompletedJob, transcoded, FailedJob, on_previewed, on_failed}
use gachinol.Api.Pipeline.Distribution.{judge_content}
use gachinol.Api.Pipeline.Events.{completed, on_event}
use gachinol.Api.Pipeline.Keeps.{OutsideObeys}
use gachinol.Api.Pipeline.Runs.{pipeline, pipeline-Audited, pipeline-DatedOnce}
use gachinol.Api.Pipeline.Quiet.{Quiet}
use gachinol.Api.Pipeline.Settled.{Unmoved}
use gachinol.Api.Pipeline.SettledHandlers.{on_event-Unmoved}
use gachinol.Api.Pipeline.Outcomes.{Verdict, on_previewed-arrives, judge_content-Verdict}
use gachinol.Api.Pipeline.Failures.{TranscodeFailed, on_failed-TranscodeFailed}
use gachinol.Tests.Contents.{row_at, db_at, quiet, same-DatedOnce, draft-Dated}

abbrev measured : Measured
measured = record {
  size_bytes = some 900;
  duration_sec = some 61;
  width = some 1280;
  height = some 720;
  bitrate_kbps = none;
  video_codec = some "h264";
  audio_codec = none;
  rendition_label = some "720p";
  checksum_sha256 = some "c0ffee";
}

abbrev rendition_out : ProducedAsset
rendition_out = record {
  kind = rendition;
  bucket = "media";
  storage_key = "contents/market/g1/rendition.mp4";
  mime_type = "video/mp4";
  measured = measured;
}

abbrev transcoding : CompletedJob
transcoding = record {
  id = "transcode:market:g1";
  content_id = "market";
  generation = 1;
  completed = transcoded (rendition_out ∷ []);
}

abbrev pub outside : Outside
outside = record {
  config = record {
    bucket = "media";
    rendition_height = 720;
    preview_height = 360;
    preview_bitrate_kbps = 600;
    media_queue = true;
    analysis_queue = false;
  };
  texts = record {
    unknown_failure = 63 ∷ [];
    some_channels_failed = 67 ∷ [];
    publish_exhausted = 69 ∷ [];
    publish_error = 71 ∷ [];
  };
  workflow = quiet;
  between = λ s. s;
  add = λ job. ok tt;
  new_id = λ s. "asset";
}

abbrev on_youtube : Publication
on_youtube = record {
  id = "p1";
  content_id = "market";
  channel_account_id = "center";
  platform = "youtube";
  status = PublicationStatus.published;
  attempts = 1;
  requested_by_user_id = none;
  external_post_id = some "v";
  external_url = none;
  published_at = some 5;
  retracted_at = none;
  error_message = none;
}

abbrev pub system_at : ContentStatus → System
system_at st = record {
  db = db_at st;
  publications = on_youtube ∷ [];
  assets = [];
  analyses = λ id g. none;
  added = [];
}

outside-Quiet : Quiet outside
outside-Quiet = record { at_pause = λ s. refl; at_await = λ s. refl; hook = λ id g s. refl }

pub outside_obeys : (R : Db → Db → Type 0) → ((s : Db) → R s s) → OutsideObeys R outside
outside_obeys R same = record {
  workflow = record { between = same; sync = λ id g s. same s; remove = λ id g s. same s };
  between = λ s. same s.db;
}

-- The job of a transcoding is found at the start, and its event is delivered once more.
pipeline-Audited_example :
    Audited
      (db_at draft)
      (pipeline outside
        (completed transcoding ∷ [])
        []
        (completed transcoding ∷ [])
        (system_at draft)).1.db
pipeline-Audited_example =
    pipeline-Audited outside (completed transcoding ∷ []) [] (completed transcoding ∷ [])
      (system_at draft) (outside_obeys Audited Audited-order.reflexive)

pipeline-DatedOnce_example :
    let t =
      (pipeline outside
        (completed transcoding ∷ [])
        []
        (completed transcoding ∷ [])
        (system_at draft)).1 in
    AllDated t.db × KeepsDates (db_at draft) t.db
pipeline-DatedOnce_example =
    pipeline-DatedOnce outside (completed transcoding ∷ []) [] (completed transcoding ∷ [])
      (system_at draft) (outside_obeys DatedOnce same-DatedOnce) draft-Dated

on_event-Unmoved_example :
    Unmoved "market"
      (system_at awaiting_reporter_review)
      (on_event outside (completed transcoding) (system_at awaiting_reporter_review)).1
on_event-Unmoved_example =
    on_event-Unmoved outside (completed transcoding) "market" (system_at awaiting_reporter_review)
      outside-Quiet refl (awaiting_reporter_review, refl, refl)

judge_content-Verdict_example :
    Verdict "market"
      (on_youtube ∷ [])
      (system_at publishing)
      (judge_content outside "job" "market" (system_at publishing)).1
judge_content-Verdict_example =
    judge_content-Verdict outside "market" "job" (system_at publishing) (row_at publishing)
      outside-Quiet refl refl

abbrev broken : FailedJob
broken = record {
  id = "transcode:market:g1";
  type = transcode;
  content_id = "market";
  attempts = record { made = 3; allowed = some 3; failed_reason = none };
}

on_failed-TranscodeFailed_example :
    TranscodeFailed outside broken
      (system_at processing)
      (on_failed outside broken (system_at processing))
on_failed-TranscodeFailed_example =
    on_failed-TranscodeFailed outside broken (system_at processing) (row_at processing)
      outside-Quiet refl refl (inl refl)

on_previewed-arrives_example :
    AtStatus "market" awaiting_reporter_review
      (on_previewed outside "market" "job" (system_at preview_generating)).1.db
on_previewed-arrives_example =
    (on_previewed-arrives outside "market" "job" (system_at preview_generating)
        (row_at preview_generating) outside-Quiet refl refl).0
      refl

abbrev stored : Assets
stored =
    record {
      id = "old";
      content_id = "market";
      kind = original;
      status = ready;
      generation = 1;
      bucket = "media";
      storage_key = "contents/market/g1/original.mp4";
      mime_type = "video/mp4";
      measured = measured;
      created_by_job_id = none;
    }
    ∷ []

write-OneRowEach_example :
    OneRowEach (write (upserts_output "a" "market" 1 "job" rendition_out) stored)
write-OneRowEach_example =
    write-OneRowEach (upserts_output "a" "market" 1 "job" rendition_out) stored (tt, tt)

upsert_output-again_example :
    let once = upsert_output "a" "market" 1 "job" rendition_out stored in
    upsert_output "b" "market" 1 "job" rendition_out once ≡ once
upsert_output-again_example = upsert_output-again "a" "b" "market" 1 "job" rendition_out stored
