-- ===== src/Api/Publications/Service.antt =====
-- services/api/src/distribution/publications.service.ts: `PublicationsService`, the only writer of
-- `publications`. The table is a list, newest row last; `findFirst` without an order takes the oldest
-- row. A new id is a parameter. The unique index of the database, which rejects a second active
-- row that a concurrent request creates, is not modelled.
use gachinol.Prelude.{
  ℕ, ◌+◌, String, Bool, false, not, ◌&&◌, Option, none, some, List, [], ◌∷◌, ◌++◌, ◌==◌, string_eq,
  option_eq, take, if◌then◌else◌, includes, any,
}
use gachinol.Shared.PublicationStatus.{
  PublicationStatus, publication_status_eq, queued, publishing, published, failed, retracted,
  can_transition_publication,
}
use gachinol.Api.Exec.{Result, ok, err, invalid_transition}
use gachinol.Api.Contents.Database.{Text}

pub record Publication : Type 0 where
  pub id : String
  pub content_id : String
  pub channel_account_id : String
  pub platform : String
  pub status : PublicationStatus
  pub attempts : ℕ
  pub requested_by_user_id : Option String
  pub external_post_id : Option String
  pub external_url : Option String
  pub published_at : Option ℕ
  pub retracted_at : Option ℕ
  pub error_message : Option Text

abbrev pub Table : Type 0
Table = List Publication

abbrev pub active_statuses : List PublicationStatus
active_statuses = queued ∷ publishing ∷ published ∷ []

abbrev pub relevant_statuses : List PublicationStatus
relevant_statuses = queued ∷ publishing ∷ published ∷ failed ∷ []

pub record CreateQueuedParams : Type 0 where
  pub content_id : String
  pub channel_account_id : String
  pub platform : String
  pub requested_by_user_id : Option String

abbrev pub is_active_for : CreateQueuedParams → Publication → Bool
is_active_for p r =
    r.content_id == p.content_id
    && r.channel_account_id == p.channel_account_id
    && includes active_statuses r.status

abbrev pub find_first : (Publication → Bool) → Table → Option Publication
find_first p [] = none
find_first p (r ∷ rest) = if p r then some r else find_first p rest

abbrev pub queued_row : String → CreateQueuedParams → Publication
queued_row new_id p = record {
  id = new_id;
  content_id = p.content_id;
  channel_account_id = p.channel_account_id;
  platform = p.platform;
  status = queued;
  attempts = 0;
  requested_by_user_id = p.requested_by_user_id;
  external_post_id = none;
  external_url = none;
  published_at = none;
  retracted_at = none;
  error_message = none;
}

abbrev pub reuse_or_create :
    String → CreateQueuedParams → Table → Option Publication → Publication × Table
reuse_or_create new_id p rows (some existing) = (existing, rows)
reuse_or_create new_id p rows none = (queued_row new_id p, rows ++ queued_row new_id p ∷ [])

unfoldable pub create_queued : String → CreateQueuedParams → Table → Publication × Table
create_queued new_id p rows = reuse_or_create new_id p rows (find_first (is_active_for p) rows)

-- `updateMany({ where: { id, status: from }, data })` on one row.
abbrev pub cas :
    String → PublicationStatus → (Publication → Publication) → Publication → Publication
cas id from data_ r = if r.id == id && r.status == from then data_ r else r

abbrev pub matches : String → PublicationStatus → Publication → Bool
matches id from r = r.id == id && r.status == from

abbrev pub update_rows : (Publication → Publication) → Table → Table
update_rows f [] = []
update_rows f (r ∷ rest) = f r ∷ update_rows f rest

abbrev pub update_many :
    String → PublicationStatus → (Publication → Publication) → Table → Bool × Table
update_many id from data_ rows = (any (matches id from) rows, update_rows (cas id from data_) rows)

abbrev pub begin_data : Publication → Publication
begin_data r = record r { status = publishing; attempts = r.attempts + 1 }

unfoldable pub begin_publishing : String → Table → Bool × Table
begin_publishing id rows = update_many id queued begin_data rows

pub record PublishResultItem : Type 0 where
  pub publication_id : String
  pub succeeded : Bool
  pub external_post_id : Option String
  pub external_url : Option String
  pub error : Option Text

abbrev error_or : Text → Option Text → Text
error_or default_error none = default_error
error_or default_error (some e) = e

-- `default_error` is the text that stands for an error without one.
abbrev pub result_data : Text → PublishResultItem → ℕ → Publication → Publication
result_data default_error x now r =
    if x.succeeded
    then record r {
      status = published;
      external_post_id = x.external_post_id;
      external_url = x.external_url;
      published_at = some now;
      error_message = none;
    }
    else record r {
      status = failed;
      error_message = some (take 500 (error_or default_error x.error));
    }

-- The second statement of `resolveResult`; the first one is `begin_publishing`.
unfoldable pub record_result : Text → PublishResultItem → ℕ → Table → Table
record_result default_error x now rows =
    (update_many x.publication_id publishing (result_data default_error x now) rows).1

-- The result that `failExhausted` resolves for a publication whose job ran out of attempts.
abbrev pub exhausted_result : String → Text → PublishResultItem
exhausted_result id error = record {
  publication_id = id;
  succeeded = false;
  external_post_id = none;
  external_url = none;
  error = some error;
}

abbrev pub allowed_update :
    String
    → PublicationStatus
    → PublicationStatus
    → (Publication → Publication)
    → Table
    → Result Bool × Table
allowed_update id from to data_ rows =
    if not (can_transition_publication from to)
    then (err invalid_transition, rows)
    else let (hit, rows') = update_many id from data_ rows in (ok hit, rows')

abbrev pub requeue_data : Publication → Publication
requeue_data r = record r { status = queued; error_message = none }

unfoldable pub retry_to_queued : String → PublicationStatus → Table → Result Bool × Table
retry_to_queued id from rows = allowed_update id from queued requeue_data rows

abbrev pub retract_data : ℕ → Publication → Publication
retract_data now r = record r { status = retracted; retracted_at = some now }

unfoldable pub retract : String → ℕ → Table → Result Bool × Table
retract id now rows = allowed_update id published retracted (retract_data now) rows
