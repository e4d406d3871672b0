-- ===== src/Api/Publications/Writes.antt =====
-- The steps of `PublicationsService` on its table, single updates and the transaction of
-- `createQueued`: between two steps of one method those of others may run.
use gachinol.Prelude.{ℕ, ◌≢◌, String, List, [], ◌∷◌}
use gachinol.Shared.PublicationStatus.{PublicationStatus}
use gachinol.Api.Contents.Database.{Text}
use gachinol.Api.Publications.Service
use gachinol.Api.Publications.Service.{Table, CreateQueuedParams, PublishResultItem}

pub data Write : Type 0 where
  create_queued : String → CreateQueuedParams → Write  -- with the new id
  begin_publishing : String → Write
  record_result : PublishResultItem → ℕ → Write  -- and the time
  retry_to_queued : String → PublicationStatus → Write
  retract : String → ℕ → Write

unfoldable pub write : Text → Write → Table → Table
write default_error (create_queued new_id p) rows = (Service.create_queued new_id p rows).1
write default_error (begin_publishing id) rows = (Service.begin_publishing id rows).1
write default_error (record_result x now) rows = Service.record_result default_error x now rows
write default_error (retry_to_queued id from) rows = (Service.retry_to_queued id from rows).1
write default_error (retract id now) rows = (Service.retract id now rows).1

unfoldable pub writes : Text → List Write → Table → Table
unfolding write
writes default_error [] rows = rows
writes default_error (w ∷ rest) rows = writes default_error rest (write default_error w rows)

-- The statement does not put a publication with this id into the queue.
abbrev pub LeavesOut : String → Write → Type 0
LeavesOut id (create_queued new_id p) = new_id ≢ id
LeavesOut id (retry_to_queued other from) = other ≢ id
LeavesOut id _ = Unit
