-- ===== src/Api/Distribution/Orchestrator.antt =====
-- services/api/src/contents/distribution-orchestrator.service.ts. Nothing runs between the statements
-- of a transaction; at the other calls `Outside.between` does.
use gachinol.Prelude.{
  String, Bool, Option, none, some, List, [], ◌∷◌, ◌==◌, string_eq, if◌then◌else◌,
}
use gachinol.Shared.ContentStatus.{content_status_eq, center_approved, publishing}
use gachinol.Shared.PublicationStatus.{publication_status_eq, published, failed}
use gachinol.Api.Exec.{
  Result, ok, err, conflict, or_404, require, Exec, pure, lift, gets, transaction, ◌>>=◌, ◌>>◌,
}
use gachinol.Api.Users.{User}
use gachinol.Api.Contents.Database.{Content, find_content}
use gachinol.Api.Contents.Workflow.Guards.{require_center_actor}
use gachinol.Api.Contents.Workflow.InTransaction.{begin_publishing, resume_publishing}
use gachinol.Api.Publications.Service.{
  Publication, Table, CreateQueuedParams, find_first, create_queued, retry_to_queued, retract,
}
use gachinol.Api.Distribution.Channels.{ChannelAccount, Accounts, find_by_id, resolve_targets}
use gachinol.Api.Distribution.Jobs.{Desk, enqueue_publish}
use gachinol.Api.Pipeline.System.{System, Outside, on_db, pause}

abbrev pub find_publication : String → Table → Option Publication
find_publication id rows = find_first (λ r. r.id == id) rows

abbrev queued_params : Content → User → ChannelAccount → CreateQueuedParams
queued_params content u ch = record {
  content_id = content.id;
  channel_account_id = ch.id;
  platform = ch.platform;
  requested_by_user_id = some u.id;
}

abbrev hit_or_conflict : Result Bool → Result (Unit {0})
hit_or_conflict (ok hit) = require hit conflict
hit_or_conflict (err e) = err e

abbrev or_empty : Option String → String
or_empty none = ""
or_empty (some text) = text

-- No channel is no error of an automatic distribution.
abbrev or_no_target : Result Accounts → Result Accounts
or_no_target (err conflict) = ok []
or_no_target r = r

abbrev pub one_or_none : Option Publication → List Publication
one_or_none none = []
one_or_none (some row) = row ∷ []

-- One statement on the table of publications, which must hit a row.
unfoldable pub on_table : (Table → Result Bool × Table) → Exec System (Unit {0})
on_table f s =
    let (r, rows) = f s.publications in (hit_or_conflict r, record s { publications = rows })

unfoldable pub load_row : String → Exec System Content
load_row id s = (or_404 (find_content id s.db), s)

module _ (out : Outside) where
  unfoldable pub load_publication : String → Exec System Publication
  load_publication id = do
    pause out
    found ← gets (λ s. find_publication id s.publications)
    lift (or_404 found)

  unfoldable pub create_queued_for : Content → User → ChannelAccount → Exec System Publication
  create_queued_for content u ch s =
      let (row, rows) = create_queued (out.new_id s) (queued_params content u ch) s.publications in
      (ok row, record s { publications = rows })

  unfoldable pub create_all : Content → User → Accounts → Exec System (List Publication)
  create_all content u [] = pure []
  create_all content u (ch ∷ rest) = do
    row ← create_queued_for content u ch
    rows ← create_all content u rest
    pure (row ∷ rows)

  module _ (desk : Desk) where
    abbrev pub finish : String → List Publication → Exec System (List Publication)
    finish content_id created = do
      pause out
      current ← load_row content_id
      enqueue_publish out desk current created
      pure created

    abbrev pub distribute_content : Content → User → List String → Exec System (List Publication)
    distribute_content content u ids = do
      lift (require_center_actor u)
      lift (require (content.status == center_approved) conflict)
      pause out
      accounts ← gets desk.accounts
      targets ← lift (resolve_targets (desk.audience content.id) ids accounts)
      pause out
      created ← transaction (do on_db (begin_publishing content u); create_all content u targets)
      finish content.id created

    unfoldable pub distribute : String → User → List String → Exec System (List Publication)
    distribute content_id u ids = do
      pause out
      content ← load_row content_id
      distribute_content content u ids

    abbrev pub distribute_to : Content → User → Accounts → Exec System (List Publication)
    distribute_to content u [] = pure []
    distribute_to content u (ch ∷ rest) = do
      pause out
      created ← transaction (create_all content u (ch ∷ rest))
      finish content.id created

    unfoldable pub start_auto_distribution : Content → User → Exec System (List Publication)
    start_auto_distribution content u =
        if content.status == publishing
        then (do
          pause out
          accounts ← gets desk.accounts
          targets ← lift (or_no_target (resolve_targets (desk.audience content.id) [] accounts))
          distribute_to content u targets)
        else pure []

    abbrev pub retry_of_content : Publication → User → Content → Exec System Publication
    retry_of_content row u content = do
      pause out
      transaction (do on_table (retry_to_queued row.id failed); on_db (resume_publishing content u))
      pause out
      requeued ← gets (λ s. find_publication row.id s.publications)
      finish content.id (one_or_none requeued)
      load_publication row.id

    unfoldable pub retry_publication : String → User → Exec System Publication
    retry_publication id u = do
      row ← load_publication id
      lift (require_center_actor u)
      lift (require (row.status == failed) conflict)
      pause out
      content ← load_row row.content_id
      retry_of_content row u content

    abbrev adapter_retracts : Publication → Option ChannelAccount → Result (Unit {0})
    adapter_retracts row none =
        desk.adapter_retract row.platform "" (or_empty row.external_post_id) ""
    adapter_retracts row (some ch) =
        desk.adapter_retract row.platform ch.external_channel_id (or_empty row.external_post_id)
          ch.credential_ref

    unfoldable pub retract_publication : String → User → Exec System Publication
    retract_publication id u = do
      row ← load_publication id
      lift (require_center_actor u)
      lift (require (row.status == published) conflict)
      lift (require (desk.has_adapter row.platform) conflict)
      pause out
      accounts ← gets desk.accounts
      lift (adapter_retracts row (find_by_id row.channel_account_id accounts))
      pause out
      transaction (λ s. on_table (retract row.id s.db.clock) s)
      load_publication id
