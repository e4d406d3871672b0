-- ===== src/Api/Publications/FirstResult.antt =====
-- A publication's first result stands, until the publication is put into the queue again.
use gachinol.Prelude.{
  ℕ, ◌≡◌, ◌≢◌, refl, ap, String, false, List, [], ◌∷◌, ◌==◌, string_eq, Bool-cases, inl, inr,
  eq_of_test, eq_self, test_of_ne, All, arith,
}
use gachinol.Shared.PublicationStatus.{PublicationStatus, publication_status_eq, queued, publishing}
use gachinol.Api.Contents.Database.{Text}
use gachinol.Api.Publications.Service.{
  Publication, Table, matches, begin_publishing, PublishResultItem, result_data, record_result,
}
use gachinol.Api.Publications.Writes.{Write, writes, LeavesOut}
use gachinol.Api.Publications.RowRules.{RowRules, writes-All}

missed :
    (id : String) (from : PublicationStatus) (r : Publication)
    → matches id from r ≡ false
    → r.id ≡ id
    → r.status ≢ from
missed id from r h e st = ground (arith, e, st, h, eq_self r.id, eq_self r.status)

-- The publication, if this row is it, does not wait in the queue.
abbrev Unqueued : String → Publication → Type 0
Unqueued id r = r.id ≡ id → r.status ≢ queued

-- Nor is it under way.
abbrev Settled : String → Publication → Type 0
Settled id r = r.id ≡ id → (r.status ≢ queued) × (r.status ≢ publishing)

result_data-Settled :
    (default_error : Text) (id : String) (x : PublishResultItem) (now : ℕ) (r : Publication)
    → Settled id (result_data default_error x now r)
result_data-Settled default_error id x now r = elim (Bool-cases x.succeeded) [
  | inl fine ↦ rw fine λ e. (cc, cc)
  | inr bad ↦ rw bad λ e. (cc, cc)
]

Unqueued-RowRules : (default_error : Text) (id : String) → RowRules default_error id (Unqueued id)
Unqueued-RowRules default_error id = record {
  created = λ new_id p k e. absurd (k e);
  begun = λ r u b e. cc;
  recorded = λ x now r e. (result_data-Settled default_error id x now r e).0;
  requeued = λ r k e. absurd (k e);
  retracts = λ now r e. cc;
}

Settled-RowRules : (default_error : Text) (id : String) → RowRules default_error id (Settled id)
Settled-RowRules default_error id = record {
  created = λ new_id p k e. absurd (k e);
  begun = λ r u b e. absurd ((u e).0 b);
  recorded = λ x now r e. result_data-Settled default_error id x now r e;
  requeued = λ r k e. absurd (k e);
  retracts = λ now r e. (cc, cc);
}

begin_publishing-Unqueued :
    (id : String) (rows : Table) → All (Unqueued id) (begin_publishing id rows).1
unfolding begin_publishing
begin_publishing-Unqueued id [] = tt
begin_publishing-Unqueued id (r ∷ rest) = (
  elim (Bool-cases (matches id queued r)) [
    | inl hit ↦ rw hit λ e. cc
    | inr miss ↦ rw miss λ e st. missed id queued r miss e st
  ],
  begin_publishing-Unqueued id rest,
)

record_result-Settled :
    (default_error : Text) (x : PublishResultItem) (now : ℕ) (rows : Table)
    → All (Unqueued x.publication_id) rows
    → All (Settled x.publication_id) (record_result default_error x now rows)
unfolding record_result
record_result-Settled default_error x now [] h = tt
record_result-Settled default_error x now (r ∷ rest) (u, us) = (
  elim (Bool-cases (matches x.publication_id publishing r)) [
    | inl hit ↦ rw hit (result_data-Settled default_error x.publication_id x now r)
    | inr miss ↦ rw miss λ e. (u e, λ st. missed x.publication_id publishing r miss e st)
  ],
  record_result-Settled default_error x now rest us,
)

Settled-matches :
    (id : String) (r : Publication)
    → Settled id r
    → (matches id queued r ≡ false) × (matches id publishing r ≡ false)
Settled-matches id r h = elim (Bool-cases (r.id == id)) [
  | inl same ↦
      let e = eq_of_test r.id id same in
      (
        rw (same, test_of_ne r.status queued (h e).0) refl,
        rw (same, test_of_ne r.status publishing (h e).1) refl,
      )
  | inr other ↦ (rw other refl, rw other refl)
]

begin_publishing-idle :
    (id : String) (rows : Table) → All (Settled id) rows → begin_publishing id rows ≡ (false, rows)
unfolding begin_publishing
begin_publishing-idle id [] h = refl
begin_publishing-idle id (r ∷ rest) (s, ss) =
    rw
      (
        (Settled-matches id r s).0,
        ap (λ x. x.0) (begin_publishing-idle id rest ss),
        ap (λ x. x.1) (begin_publishing-idle id rest ss),
      )
      refl

record_result-idle :
    (default_error : Text) (x : PublishResultItem) (now : ℕ) (rows : Table)
    → All (Settled x.publication_id) rows
    → record_result default_error x now rows ≡ rows
unfolding record_result
record_result-idle default_error x now [] h = refl
record_result-idle default_error x now (r ∷ rest) (s, ss) =
    rw ((Settled-matches x.publication_id r s).1, record_result-idle default_error x now rest ss)
      refl

-- Once a result for a publication has been recorded, any result for it, the same again or another,
-- finds nothing to begin and changes no row, whatever statements of the service run between the
-- first result's two statements and between the two results, if none of them puts the publication
-- into the queue: none creates it, and none returns it there for a retry.
pub record_result-first_wins :
    (default_error : Text) (x y : PublishResultItem) (now later : ℕ) (between after : List Write)
    (rows : Table)
    → All (LeavesOut x.publication_id) between
    → All (LeavesOut x.publication_id) after
    → y.publication_id ≡ x.publication_id
    → let begun = writes default_error between (begin_publishing x.publication_id rows).1 in
      let t = writes default_error after (record_result default_error x now begun) in
      (begin_publishing y.publication_id t ≡ (false, t))
      × (record_result default_error y later t ≡ t)
record_result-first_wins default_error x y now later between after rows b a same =
    let begun : Table = writes default_error between (begin_publishing x.publication_id rows).1 in
    let waits : All (Unqueued x.publication_id) begun =
      writes-All (Unqueued-RowRules default_error x.publication_id) between _ b
        (begin_publishing-Unqueued x.publication_id rows) in
    let settled =
      writes-All (Settled-RowRules default_error x.publication_id) after _ a
        (record_result-Settled default_error x now begun waits) in
    (
      begin_publishing-idle y.publication_id _ (rw same settled),
      record_result-idle default_error y later _ (rw same settled),
    )
