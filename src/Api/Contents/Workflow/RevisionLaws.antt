-- ===== src/Api/Contents/Workflow/RevisionLaws.antt =====
-- `resolveRevisionRequests`: what it closes, and that a second delivery closes nothing more.
use gachinol.Prelude.{
  ℕ, ◌≡◌, ◌≢◌, refl, ◌∙◌, eq_of_test, test_of_ne, sym, inl, inr, String, Bool, true, false, ◌&&◌,
  List, [], ◌∷◌, ◌==◌, string_eq, Bool-cases, and_true,
}
use gachinol.Api.Exec.{ok}
use gachinol.Api.Contents.Database.{RevisionRequest, Db}
use gachinol.Api.Contents.Workflow.Revisions.{
  is_open_for, resolve_row, resolve_rows, open_count, resolve_revision_requests,
}

and_false : (b : Bool) → (b && false) ≡ false
and_false true = refl
and_false false = refl

closed_row :
    (id job : String) (now : ℕ) (r : RevisionRequest)
    → is_open_for id (resolve_row id job now r) ≡ false
closed_row id job now r = elim (Bool-cases (is_open_for id r)) [
  | inl is_open ↦ rw is_open (and_false (r.content_id == id))
  | inr closed ↦ rw closed closed
]

stays_closed :
    (id job : String) (now : ℕ) (r : RevisionRequest)
    → is_open_for id r ≡ false
    → resolve_row id job now r ≡ r
stays_closed id job now r h = rw h refl

none_open :
    (id job : String) (now : ℕ) (rows : List RevisionRequest)
    → open_count id (resolve_rows id job now rows) ≡ 0
none_open id job now [] = refl
none_open id job now (r ∷ rest) = rw (closed_row id job now r, none_open id job now rest) refl

resolve_again :
    (id job job' : String) (now now' : ℕ) (rows : List RevisionRequest)
    → resolve_rows id job' now' (resolve_rows id job now rows) ≡ resolve_rows id job now rows
resolve_again id job job' now now' [] = refl
resolve_again id job job' now now' (r ∷ rest) =
    rw
      (
        resolve_again id job job' now now' rest,
        stays_closed id job' now' (resolve_row id job now r) (closed_row id job now r),
      )
      refl

other_row :
    (id other job : String) (now : ℕ) (r : RevisionRequest)
    → other ≢ id
    → is_open_for other (resolve_row id job now r) ≡ is_open_for other r
other_row id other job now r differs = elim (Bool-cases (is_open_for id r)) [
  | inl is_open ↦
      let this = eq_of_test r.content_id id (and_true _ _ is_open).0 in
      let not_other = test_of_ne r.content_id other (λ e. differs (sym e ∙ this)) in
      rw (is_open, not_other) refl
  | inr closed ↦ rw closed refl
]

others_open :
    (id other job : String) (now : ℕ) (rows : List RevisionRequest)
    → other ≢ id
    → open_count other (resolve_rows id job now rows) ≡ open_count other rows
others_open id other job now [] differs = refl
others_open id other job now (r ∷ rest) differs =
    rw (other_row id other job now r differs, others_open id other job now rest differs) refl

-- `resolveRevisionRequests` leaves no open request of the content, and of any other content as
-- many as before; a second call for the content, by any job and at any later time, answers 0 and
-- changes nothing.
pub resolve_revision_requests-closes :
    (id job job' : String) (now : ℕ) (s : Db)
    → let t = (resolve_revision_requests id job s).1 in
      (open_count id t.revision_requests ≡ 0)
      × ((other : String)
          → other ≢ id
          → open_count other t.revision_requests ≡ open_count other s.revision_requests)
      × (resolve_revision_requests id job' (record t { clock = now })
          ≡ (ok 0, record t { clock = now }))
unfolding resolve_revision_requests
resolve_revision_requests-closes id job job' now s = (
  none_open id job s.clock s.revision_requests,
  λ other differs. others_open id other job s.clock s.revision_requests differs,
  rw
      (
        none_open id job s.clock s.revision_requests,
        resolve_again id job job' s.clock now s.revision_requests,
      )
      refl,
)
