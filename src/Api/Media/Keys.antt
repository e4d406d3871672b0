-- ===== src/Api/Media/Keys.antt =====
-- packages/shared/src/media/media-job.ts and packages/shared/src/analysis/analysis-job.ts: the
-- types of media jobs, the ids of jobs and the keys of stored objects.
use gachinol.Prelude.{ℕ, String, true, false, [], ◌∷◌, nat_eq, template, decimal}
use Prim.Native.Char.{code}
use Prim.Native.String.{[] as no_text, ◌∷◌ as ◌then◌}

pub data MediaJobType : Type 0 where
  transcode auto_edit preview thumbnail : MediaJobType

abbrev pub job_type_name : MediaJobType → String
job_type_name transcode = "transcode"
job_type_name auto_edit = "auto_edit"
job_type_name preview = "preview"
job_type_name thumbnail = "thumbnail"

unfoldable pub media_job_id : MediaJobType → String → ℕ → String
media_job_id type content_id generation =
    template (job_type_name type ∷ ":" ∷ content_id ∷ ":g" ∷ decimal generation ∷ [])

unfoldable pub analysis_job_id : String → ℕ → String
analysis_job_id content_id generation =
    template ("analysis:" ∷ content_id ∷ ":g" ∷ decimal generation ∷ [])

unfoldable pub media_output_key_prefix : String → ℕ → String
media_output_key_prefix content_id generation =
    template ("contents/" ∷ content_id ∷ "/g" ∷ decimal generation ∷ "/" ∷ [])

-- `ext.replace(/^\.+/, '')`
abbrev without_dots : String → String
without_dots no_text = ""
without_dots (c then rest) = elim (nat_eq (code c) 46) [
  | true ↦ without_dots rest
  | false ↦ c then rest
]

unfoldable pub original_storage_key : String → String → String
original_storage_key content_id ext =
    template ("contents/" ∷ content_id ∷ "/g1/original." ∷ without_dots ext ∷ [])
