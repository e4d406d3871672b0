-- ===== src/Api/Contents/Workflow/HopLaws.antt =====
-- What `applyHop` does: nothing, or one row and one log row.
use gachinol.Prelude.{
  ◌≡◌, ◌≢◌, refl, sym, ◌∙◌, subst, some-injective, ne_of_test, ◌⊎◌, inl, inr, String, Bool, true,
  false, Option, none, some, [], ◌∷◌, ◌++◌, ◌==◌, string_eq, option_eq, eq_of_test, Bool-cases,
  if◌then◌else◌, and_true,
}
use gachinol.Shared.ContentStatus.{ContentStatus, content_status_eq, uploaded, processing}
use gachinol.Shared.ResidentUploadStatus.{ResidentUploadStatus, approved, resident_upload_status_eq}
use gachinol.Api.Exec.{Result, ok, err, conflict, invalid_transition, pure, throw, ◌>>=◌}
use gachinol.Api.Contents.Database.{
  ContentColumns, Content, ContentOrigin, reporter_upload, live_vod, resident_link,
  content_origin_eq, TransitionActor, Db, update_content, create_log, write_row,
}
use gachinol.Api.Contents.ReviewGate.{is_pipeline_entry_edge, assert_resident_review_approved}
use gachinol.Api.Contents.Workflow.Hop.{HopOpts, hop_data, hop_log, entry_gate, apply_hop}

-- The review gate as a condition on the database.
abbrev pub GateOpen : Content → ContentStatus → ContentStatus → Db → Type 0
GateOpen c from to s =
    from ≡ uploaded
    → to ≡ processing
    → c.origin ≡ resident_link
    → s.resident_uploads c.id ≡ some approved

abbrev Reviewed : Db → String → ContentOrigin → Type 0
Reviewed s id origin =
    ((assert_resident_review_approved id origin s ≡ (err invalid_transition, s))
      × (origin ≡ resident_link)
      × (s.resident_uploads id ≢ some approved))
    ⊎ ((assert_resident_review_approved id origin s ≡ (ok tt, s))
        × (origin ≡ resident_link → s.resident_uploads id ≡ some approved))

review_check_upload :
    (s : Db) (id : String) (upload : Option ResidentUploadStatus)
    → s.resident_uploads id ≡ upload
    → Reviewed s id resident_link
unfolding assert_resident_review_approved ◌>>=◌
review_check_upload s id none e = inl (rw e refl, refl, λ a. cc)
review_check_upload s id (some approved) e = inr (rw e refl, λ _. e)
review_check_upload s id (some _) e = inl (rw e refl, refl, λ a. cc)

review_check : (s : Db) (id : String) (origin : ContentOrigin) → Reviewed s id origin
unfolding assert_resident_review_approved pure
review_check s id reporter_upload = inr (refl, λ e. cc)
review_check s id live_vod = inr (refl, λ e. cc)
review_check s id resident_link = review_check_upload s id (s.resident_uploads id) refl

entry_edge_of :
    (from to : ContentStatus)
    → from ≡ uploaded
    → to ≡ processing
    → is_pipeline_entry_edge from to ≡ true
unfolding is_pipeline_entry_edge
entry_edge_of from to a b = rw (a, b) refl

entry_edge :
    (from to : ContentStatus)
    → is_pipeline_entry_edge from to ≡ true
    → (from ≡ uploaded) × (to ≡ processing)
unfolding is_pipeline_entry_edge
entry_edge from to h =
    let (a, b) = and_true _ _ h in (eq_of_test from uploaded a, eq_of_test to processing b)

-- The gate leaves the database as it is, and lets pass exactly what is approved.
pub entry_gate-cases :
    (c : Content) (from to : ContentStatus) (s : Db)
    → ((entry_gate c from to s ≡ (err invalid_transition, s)) × ¬ (GateOpen c from to s))
      ⊎ ((entry_gate c from to s ≡ (ok tt, s)) × GateOpen c from to s)
unfolding entry_gate ◌>>=◌
entry_gate-cases c from to s = elim (Bool-cases (is_pipeline_entry_edge from to)) [
  | inl edge ↦ elim (review_check s c.id c.origin) [
    | inl closed ↦
        let (at_from, at_to) = entry_edge from to edge in
        inl (rw edge closed.0, λ passes. closed.2 (passes at_from at_to closed.1))
    | inr open_gate ↦ inr (rw edge open_gate.0, λ _ _. open_gate.1)
  ]
  | inr inner ↦ inr (rw inner refl, λ a b _. cc (entry_edge_of from to a b))
]

-- The compare-and-set changes nothing, or the one row, which had the expected status.
pub update_content-cases :
    (id : String) (from : ContentStatus) (change : ContentColumns → ContentColumns) (s : Db)
    → ((update_content id from change s ≡ (ok 0, s))
        × ((r : ContentColumns) → s.contents id ≡ some r → r.status ≢ from))
      ⊎ ((r : ContentColumns) × (s.contents id ≡ some r)
          × (r.status ≡ from)
          × (update_content id from change s
              ≡ (ok 1, record s { contents = write_row id (change r) s.contents })))
unfolding update_content
update_content-cases id from change s = go (s.contents id) refl
  where
    go :
        (o : Option ContentColumns)
        → s.contents id ≡ o
        → ((update_content id from change s ≡ (ok 0, s))
            × ((r : ContentColumns) → s.contents id ≡ some r → r.status ≢ from))
          ⊎ ((r : ContentColumns) × (s.contents id ≡ some r)
              × (r.status ≡ from)
              × (update_content id from change s
                  ≡ (ok 1, record s { contents = write_row id (change r) s.contents })))
    go none e = inl (rw e refl, λ r f. cc)
    go (some r) e = elim (Bool-cases (r.status == from)) [
      | inl same ↦ inr (r, e, eq_of_test r.status from same, rw e (rw same refl))
      | inr other ↦ inl (
        rw e (rw other refl),
        λ r' f.
            subst (λ x. x.status ≢ from) (some-injective _ _ (sym e ∙ f))
              (ne_of_test r.status from other),
      )
    ]

abbrev pub hop_state :
    Content → ContentStatus → ContentStatus → TransitionActor → HopOpts → ContentColumns → Db → Db
hop_state c from to actor opts r s = record s {
  contents = write_row c.id (hop_data c to opts.mutate s.clock r) s.contents;
  logs = s.logs ++ hop_log c from to actor opts s.clock ∷ [];
}

-- What a hop found when it was applied.
pub record Applied (c : Content) (from to : ContentStatus) (actor : TransitionActor)
    (opts : HopOpts) (idempotent : Bool) (s : Db) : Type 0 where
  pub row : ContentColumns
  pub row_found : s.contents c.id ≡ some row
  pub row_status : row.status ≡ from
  pub gate : GateOpen c from to s
  pub result :
      apply_hop c from to actor opts idempotent s ≡ (ok true, hop_state c from to actor opts row s)

-- A hop that was not applied: the gate was closed, or the content had left `from`.
pub record Refused (c : Content) (from to : ContentStatus) (actor : TransitionActor)
    (opts : HopOpts) (idempotent : Bool) (s : Db) : Type 0 where
  pub answer : Result Bool
  pub reason :
      ((answer ≡ err invalid_transition) × ¬ (GateOpen c from to s))
      ⊎ ((answer ≡ (if idempotent then ok false else err conflict))
          × ((r : ContentColumns) → s.contents c.id ≡ some r → r.status ≢ from))
  pub result : apply_hop c from to actor opts idempotent s ≡ (answer, s)

lost_race :
    (idempotent : Bool) (s : Db)
    → (if idempotent then pure false else throw conflict) s
      ≡ (if idempotent then ok false else err conflict, s)
unfolding pure throw
lost_race true s = refl
lost_race false s = refl

-- A hop changes nothing, or it is applied.
pub apply_hop-cases :
    (c : Content) (from to : ContentStatus) (actor : TransitionActor) (opts : HopOpts)
    (idempotent : Bool) (s : Db)
    → Refused c from to actor opts idempotent s ⊎ Applied c from to actor opts idempotent s
unfolding apply_hop ◌>>=◌ create_log
apply_hop-cases c from to actor opts idempotent s = elim (entry_gate-cases c from to s) [
  | inl closed ↦ inl (record {
    answer = err invalid_transition;
    reason = inl (refl, closed.1);
    result = rw closed.0 refl;
  })
  | inr passed ↦ elim (update_content-cases c.id from (hop_data c to opts.mutate s.clock) s) [
    | inl lost ↦ inl (record {
      answer = if idempotent then ok false else err conflict;
      reason = inr (refl, lost.1);
      result = rw (passed.0, lost.0) (lost_race idempotent s);
    })
    | inr won ↦ inr (record {
      row = won.0;
      row_found = won.1;
      row_status = won.2;
      gate = passed.1;
      result = rw (passed.0, won.3) refl;
    })
  ]
]
