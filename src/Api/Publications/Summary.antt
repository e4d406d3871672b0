-- ===== src/Api/Publications/Summary.antt =====
-- What `summarizeForContent` tells the orchestrator.
use gachinol.Prelude.{
  ◌≡◌, ◌≢◌, refl, ◌↔◌, String, Bool, true, false, not, ◌&&◌, ◌||◌, [], ◌∷◌, ◌==◌, string_eq,
  if◌then◌else◌, includes, any, all, Bool-cases, inl, inr, and_true, arith,
}
use gachinol.Shared.PublicationStatus.{
  PublicationStatus, publication_status_eq, queued, publishing, published, failed,
}
use gachinol.Api.Publications.Service.{Publication, Table, relevant_statuses}
use gachinol.Api.Publications.Report.{
  ContentPublishSummary, is_relevant_for, select, summarize_row, summarize_rows, summarize,
  summarize_for_content,
}

abbrev pub is_pending : Publication → Bool
is_pending r = r.status == queued || r.status == publishing

abbrev pub is_failed : Publication → Bool
is_failed r = r.status == failed

abbrev pub is_published : Publication → Bool
is_published r = r.status == published

or_if : (b x : Bool) → (if b then true else x) ≡ (x || b)
or_if true true = refl
or_if true false = refl
or_if false true = refl
or_if false false = refl

and_if : (b x : Bool) → (if not b then false else x) ≡ (x && b)
and_if true true = refl
and_if true false = refl
and_if false true = refl
and_if false false = refl

or_false : (x : Bool) → (x || false) ≡ x
or_false true = refl
or_false false = refl

and_true_right : (x : Bool) → (x && true) ≡ x
and_true_right true = refl
and_true_right false = refl

or_assoc : (x y z : Bool) → ((x || y) || z) ≡ (x || (y || z))
or_assoc true y z = refl
or_assoc false y z = refl

and_assoc : (x y z : Bool) → ((x && y) && z) ≡ (x && (y && z))
and_assoc true y z = refl
and_assoc false y z = refl

row_lem :
    (s : ContentPublishSummary) (r : Publication)
    → summarize_row s r ≡ record {
      any_pending = s.any_pending || is_pending r;
      any_failed = s.any_failed || is_failed r;
      all_published = s.all_published && is_published r;
    }
row_lem s r =
    rw
      (
        or_if (is_pending r) s.any_pending,
        or_if (is_failed r) s.any_failed,
        and_if (is_published r) s.all_published,
      )
      refl

rows_lem :
    (s : ContentPublishSummary) (rows : Table)
    → summarize_rows s rows ≡ record {
      any_pending = s.any_pending || any is_pending rows;
      any_failed = s.any_failed || any is_failed rows;
      all_published = s.all_published && all is_published rows;
    }
rows_lem s [] =
    rw (or_false s.any_pending, or_false s.any_failed, and_true_right s.all_published) refl
rows_lem s (r ∷ rest) =
    rw
      (
        row_lem s r,
        rows_lem
            (record {
              any_pending = s.any_pending || is_pending r;
              any_failed = s.any_failed || is_failed r;
              all_published = s.all_published && is_published r;
            })
            rest,
        or_assoc s.any_pending (is_pending r) (any is_pending rest),
        or_assoc s.any_failed (is_failed r) (any is_failed rest),
        and_assoc s.all_published (is_published r) (all is_published rest),
      )
      refl

relevant_row :
    (st : PublicationStatus)
    → includes relevant_statuses st ≡ true
    → (st == queued || st == publishing) ≡ false
    → (st == failed) ≡ false
    → (st == published) ≡ true
relevant_row st h a b = ground arith

or_split : (a b : Bool) → (a || b) ≡ false → (a ≡ false) × (b ≡ false)
or_split a b h = ground arith

relevant_published :
    (content_id : String) (rows : Table)
    → any is_pending (select (is_relevant_for content_id) rows) ≡ false
    → any is_failed (select (is_relevant_for content_id) rows) ≡ false
    → all is_published (select (is_relevant_for content_id) rows) ≡ true
relevant_published content_id [] p f = refl
relevant_published content_id (r ∷ rest) p f = elim (Bool-cases (is_relevant_for content_id r)) [
  | inl picked ↦
      let (p_r, p_rest) = or_split _ _ (rw picked at p) in
      let (f_r, f_rest) = or_split _ _ (rw picked at f) in
      rw (picked, relevant_row r.status (and_true _ _ picked).1 p_r f_r)
        (relevant_published content_id rest p_rest f_rest)
  | inr left ↦ rw left (relevant_published content_id rest (rw left at p) (rw left at f))
]

published_row :
    (st : PublicationStatus)
    → (st == published) ≡ true
    → ((st == queued || st == publishing) ≡ false) × ((st == failed) ≡ false)
published_row st h = ground arith

published_quiet :
    (rows : Table)
    → all is_published rows ≡ true
    → (any is_pending rows ≡ false) × (any is_failed rows ≡ false)
published_quiet [] h = (refl, refl)
published_quiet (r ∷ rest) h =
    let (here, there) = and_true _ _ h in
    let (p, f) = published_row r.status here in
    let (ps, fs) = published_quiet rest there in (rw p ps, rw f fs)

abbrev pub Decides : Table → ContentPublishSummary → Type 0
Decides picked s =
    (s.any_pending ≡ any is_pending picked)
    × (s.any_failed ≡ any is_failed picked)
    × ((s.all_published ≡ true)
        ↔ ((picked ≢ []) × (s.any_pending ≡ false) × (s.any_failed ≡ false)))

summarize-Decides :
    (picked : Table)
    → (any is_pending picked ≡ false
        → any is_failed picked ≡ false
        → all is_published picked ≡ true)
    → Decides picked (summarize picked)
summarize-Decides [] h = (refl, refl, (λ e. cc, λ (n, _, _). elim (n refl) [ ]))
summarize-Decides (r ∷ rest) h =
    rw
      (rows_lem (record { any_pending = false; any_failed = false; all_published = true })
        (r ∷ rest))
      (
        refl,
        refl,
        (
          λ e. (λ no_rows. cc, (published_quiet (r ∷ rest) e).0, (published_quiet (r ∷ rest) e).1),
          λ (_, p, f). h p f,
        ),
      )

-- Of the publications of the content that are not retracted or canceled: `anyPending` and `anyFailed`
-- say whether one is waiting and whether one has failed; `allPublished` holds exactly if there
-- is one, none is waiting and none has failed.
pub summarize_for_content-Decides :
    (content_id : String) (rows : Table)
    → let picked = select (is_relevant_for content_id) rows in
      let s = summarize_for_content content_id rows in Decides picked s
unfolding summarize_for_content
summarize_for_content-Decides content_id rows =
    summarize-Decides (select (is_relevant_for content_id) rows)
      (relevant_published content_id rows)
