-- ===== src/Api/Publications/RowRules.antt =====
-- A predicate on rows that every statement of the service keeps.
use gachinol.Prelude.{
  ℕ, ◌≡◌, ◌≢◌, sym, ◌∙◌, String, true, Option, none, some, List, [], ◌∷◌, ◌==◌, string_eq,
  Bool-cases, inl, inr, eq_of_test, All, All-append,
}
use gachinol.Shared.PublicationStatus.{
  PublicationStatus, publication_status_eq, queued, publishing, published, retracted,
  can_transition_publication,
}
use gachinol.Api.Contents.Database.{Text}
use gachinol.Api.Publications.Service.{
  Publication, Table, CreateQueuedParams, is_active_for, find_first, queued_row, reuse_or_create,
  create_queued, cas, matches, update_rows, begin_data, begin_publishing, PublishResultItem,
  result_data, record_result, allowed_update, requeue_data, retry_to_queued, retract_data, retract,
}
use gachinol.Api.Publications.Writes.{Write, write, writes, LeavesOut}

matches-status :
    (id : String) (from : PublicationStatus) (r : Publication)
    → matches id from r ≡ true
    → (r.id ≡ id) × (r.status ≡ from)
matches-status id from r h = elim (Bool-cases (r.id == id)) [
  | inl same ↦ (eq_of_test r.id id same, eq_of_test r.status from (rw same at h))
  | inr other ↦ cc (rw other at h)
]

module _ (P : Publication → Type 0) where
  cas-P :
      (k : String) (from : PublicationStatus) (f : Publication → Publication) (r : Publication)
      → P r
      → (r.id ≡ k → r.status ≡ from → P (f r))
      → P (cas k from f r)
  cas-P k from f r p g = elim (Bool-cases (matches k from r)) [
    | inl hit ↦ rw hit (g (matches-status k from r hit).0 (matches-status k from r hit).1)
    | inr miss ↦ rw miss p
  ]

  update_rows-All :
      (f : Publication → Publication) (rows : Table)
      → ((r : Publication) → P r → P (f r))
      → All P rows
      → All P (update_rows f rows)
  update_rows-All f [] g h = tt
  update_rows-All f (r ∷ rest) g (p, ps) = (g r p, update_rows-All f rest g ps)

  allowed_update-All :
      (k : String) (from to : PublicationStatus) (f : Publication → Publication) (rows : Table)
      → All P rows
      → ((r : Publication) → P r → P (cas k from f r))
      → All P (allowed_update k from to f rows).1
  allowed_update-All k from to f rows h g = elim (Bool-cases (can_transition_publication from to)) [
    | inl allowed ↦ rw allowed (update_rows-All (cas k from f) rows g h)
    | inr refused ↦ rw refused h
  ]

  -- A new row does what the predicate asks, a row that is there is reused.
  create_queued-All :
      (new_id : String) (p : CreateQueuedParams) (rows : Table)
      → All P rows
      → P (queued_row new_id p)
      → All P (create_queued new_id p rows).1
  unfolding create_queued
  create_queued-All new_id p rows h q = go (find_first (is_active_for p) rows)
    where
      go : (o : Option Publication) → All P (reuse_or_create new_id p rows o).1
      go none = All-append P rows (queued_row new_id p ∷ []) h (q, tt)
      go (some r) = h

-- What keeps a predicate on rows through every statement that leaves the publication out.
pub record RowRules (default_error : Text) (id : String) (P : Publication → Type 0) : Type 0 where
  pub created : (new_id : String) (p : CreateQueuedParams) → new_id ≢ id → P (queued_row new_id p)
  pub begun : (r : Publication) → P r → r.status ≡ queued → P (begin_data r)
  pub recorded :
      (x : PublishResultItem) (now : ℕ) (r : Publication) → P (result_data default_error x now r)
  pub requeued : (r : Publication) → r.id ≢ id → P (requeue_data r)
  pub retracts : (now : ℕ) (r : Publication) → P (retract_data now r)

module _ {default_error : Text} {id : String} {P : Publication → Type 0}
    (rules : RowRules default_error id P) where
  begin_publishing-All :
      (other : String) (rows : Table) → All P rows → All P (begin_publishing other rows).1
  unfolding begin_publishing
  begin_publishing-All other rows h =
      update_rows-All P (cas other queued begin_data) rows
        (λ r u. cas-P P other queued begin_data r u (λ a b. rules.begun r u b)) h

  record_result-All :
      (x : PublishResultItem) (now : ℕ) (rows : Table)
      → All P rows
      → All P (record_result default_error x now rows)
  unfolding record_result
  record_result-All x now rows h =
      let f : (Publication → Publication) = result_data default_error x now in
      update_rows-All P (cas x.publication_id publishing f) rows
        (λ r u. cas-P P x.publication_id publishing f r u (λ a b. rules.recorded x now r)) h

  write-All :
      (w : Write) (rows : Table) → LeavesOut id w → All P rows → All P (write default_error w rows)
  unfolding write retry_to_queued retract
  write-All (Write.create_queued new_id p) rows k h =
      create_queued-All P new_id p rows h (rules.created new_id p k)
  write-All (Write.begin_publishing other) rows k h = begin_publishing-All other rows h
  write-All (Write.record_result x now) rows k h = record_result-All x now rows h
  write-All (Write.retry_to_queued other from) rows k h =
      allowed_update-All P other from queued requeue_data rows h
        (λ r u. cas-P P other from requeue_data r u (λ a b. rules.requeued r (λ e. k (sym a ∙ e))))
  write-All (Write.retract other now) rows k h =
      allowed_update-All P other published retracted (retract_data now) rows h
        (λ r u. cas-P P other published (retract_data now) r u (λ a b. rules.retracts now r))

  pub writes-All :
      (ws : List Write) (rows : Table)
      → All (LeavesOut id) ws
      → All P rows
      → All P (writes default_error ws rows)
  unfolding writes
  writes-All [] rows k h = h
  writes-All (w ∷ rest) rows (k, ks) h =
      writes-All rest (write default_error w rows) ks (write-All w rows k h)
