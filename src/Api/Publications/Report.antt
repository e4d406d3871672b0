-- ===== src/Api/Publications/Report.antt =====
-- services/api/src/distribution/publications.service.ts: what it tells of the publications of one
-- content, and the loop that queues the failed ones again.
use gachinol.Prelude.{
  String, Bool, true, false, not, ◌&&◌, ◌||◌, Option, none, some, List, [], ◌∷◌, ◌++◌, ◌==◌,
  string_eq, option_eq, if◌then◌else◌, includes,
}
use gachinol.Shared.PublicationStatus.{publication_status_eq, queued, publishing, published, failed}
use gachinol.Api.Publications.Service.{
  Publication, Table, relevant_statuses, find_first, update_many, requeue_data,
}

pub record ContentPublishSummary : Type 0 where
  pub any_pending : Bool
  pub any_failed : Bool
  pub all_published : Bool

abbrev pub is_relevant_for : String → Publication → Bool
is_relevant_for content_id r = r.content_id == content_id && includes relevant_statuses r.status

abbrev pub select : (Publication → Bool) → Table → Table
select p [] = []
select p (r ∷ rest) = if p r then r ∷ select p rest else select p rest

abbrev pub summarize_row : ContentPublishSummary → Publication → ContentPublishSummary
summarize_row s r = record {
  any_pending = if r.status == queued || r.status == publishing then true else s.any_pending;
  any_failed = if r.status == failed then true else s.any_failed;
  all_published = if not (r.status == published) then false else s.all_published;
}

abbrev pub summarize_rows : ContentPublishSummary → Table → ContentPublishSummary
summarize_rows s [] = s
summarize_rows s (r ∷ rest) = summarize_rows (summarize_row s r) rest

abbrev pub summarize : Table → ContentPublishSummary
summarize [] = record { any_pending = false; any_failed = false; all_published = false }
summarize (r ∷ rest) =
    summarize_rows (record { any_pending = false; any_failed = false; all_published = true })
      (r ∷ rest)

unfoldable pub summarize_for_content : String → Table → ContentPublishSummary
summarize_for_content content_id rows = summarize (select (is_relevant_for content_id) rows)

abbrev pub newest_first : Table → Table
newest_first [] = []
newest_first (r ∷ rest) = newest_first rest ++ r ∷ []

abbrev pub is_failed_for : String → Publication → Bool
is_failed_for content_id r = r.content_id == content_id && r.status == failed

unfoldable pub list_failed_for_content : String → Table → Table
list_failed_for_content content_id rows = newest_first (select (is_failed_for content_id) rows)

abbrev found_now : Option Publication → List Publication → List Publication
found_now none out = out
found_now (some r) out = r ∷ out

-- The loop of `requeueFailedForContent` over the rows it has read.
abbrev requeue_each : Table → Table → List Publication × Table
requeue_each [] rows = ([], rows)
requeue_each (p ∷ rest) rows =
    let (hit, rows') = update_many p.id failed requeue_data rows in
    let (out, rows'') = requeue_each rest rows' in
    (if hit then found_now (find_first (λ r. r.id == p.id) rows') out else out, rows'')

unfoldable pub requeue_failed_for_content : String → Table → List Publication × Table
unfolding list_failed_for_content
requeue_failed_for_content content_id rows =
    requeue_each (list_failed_for_content content_id rows) rows
