-- ===== src/Tests/Publications.antt =====
-- The theorems on publications, for one that waits in the queue.
use gachinol.Prelude.{◌≡◌, refl, ne_of_test, true, false, none, some, [], ◌∷◌, string_eq}
use gachinol.Api.Publications.Service.{
  Table, CreateQueuedParams, queued_row, create_queued, PublishResultItem, begin_publishing,
  record_result,
}
use gachinol.Api.Publications.Report.{is_relevant_for, select, summarize_for_content}
use gachinol.Api.Publications.Laws.{create_queued-once}
use gachinol.Api.Publications.Writes.{Write, writes}
use gachinol.Api.Publications.FirstResult.{record_result-first_wins}
use gachinol.Shared.PublicationStatus.{failed}
use gachinol.Api.Publications.Summary.{Decides, summarize_for_content-Decides}

abbrev wanted : CreateQueuedParams
wanted = record {
  content_id = "market";
  channel_account_id = "tube";
  platform = "youtube";
  requested_by_user_id = none;
}

abbrev waiting : Table
waiting = queued_row "p1" wanted ∷ []

abbrev good : PublishResultItem
good = record {
  publication_id = "p1";
  succeeded = true;
  external_post_id = some "x";
  external_url = none;
  error = none;
}

abbrev bad : PublishResultItem
bad = record {
  publication_id = "p1";
  succeeded = false;
  external_post_id = none;
  external_url = none;
  error = none;
}

record_result-first_wins_example :
    (let begun = writes [] (Write.retract "p2" 7 ∷ []) (begin_publishing "p1" waiting).1 in
      let t =
        writes []
          (Write.retry_to_queued "p2" failed ∷ Write.retract "p1" 9 ∷ [])
          (record_result [] good 8 begun) in
      (begin_publishing "p1" t ≡ (false, t)) × (record_result [] bad 10 t ≡ t))
record_result-first_wins_example =
    record_result-first_wins [] good bad 8 10 (Write.retract "p2" 7 ∷ [])
      (Write.retry_to_queued "p2" failed ∷ Write.retract "p1" 9 ∷ []) waiting (tt, tt)
      (ne_of_test "p2" "p1" refl, (tt, tt)) refl

create_queued-once_example :
    create_queued "p3" wanted (create_queued "p2" wanted []).1 ≡ create_queued "p2" wanted []
create_queued-once_example = create_queued-once "p2" "p3" wanted []

summarize_for_content-Decides_example :
    Decides (select (is_relevant_for "market") waiting) (summarize_for_content "market" waiting)
summarize_for_content-Decides_example = summarize_for_content-Decides "market" waiting
