-- ===== src/Api/Contents/Workflow/AuditHop.antt =====
-- One hop is audited.
use gachinol.Prelude.{
  ℕ, ◌≡◌, ◌≢◌, refl, sym, ◌∙◌, subst, inl, inr, String, Bool, true, false, some, [], ◌∷◌, ◌==◌,
  string_eq, eq_of_test, ne_of_test, option_eq, and_true, arith, Bool-cases, includes,
}
use gachinol.Shared.ContentStatus.{
  ContentStatus, content_status_eq, preview_generating, awaiting_reporter_review,
  awaiting_center_review, reporter_approved, revision_requested, rejected,
}
use gachinol.Api.Exec.{ApiErrorCode, ok, require}
use gachinol.Api.Exec.Guarantee.{Guarantee}
use gachinol.Api.Users.{User, user_role_eq, reporter}
use gachinol.Api.Contents.Database.{
  reporter_upload, ContentColumns, Content, TransitionActor, user, system, Db,
}
use gachinol.Api.Contents.Workflow.Guards.{
  reporter_review_decisions, require_owner_reporter, policy_guard,
}
use gachinol.Api.Contents.Workflow.Hop.{
  Mutate, nothing, approval, failure, HopOpts, hop_data, hop_log, apply_hop,
}
use gachinol.Api.Contents.Workflow.HopLaws.{GateOpen, hop_state, Applied, apply_hop-cases}
use gachinol.Api.Contents.Workflow.Trail.{Trail, view_of, view_row, after_log}
use gachinol.Api.Contents.Workflow.Audit.{identity_of, identity_row, Legal, Audited, Audited-order}
use gachinol.Api.Contents.Workflow.Discipline.{Checked}

to_reporter_policy :
    (c : Content) (actor : TransitionActor)
    → policy_guard c preview_generating awaiting_reporter_review actor ≡ ok tt
    → c.origin ≡ reporter_upload
unfolding policy_guard
to_reporter_policy c (user u) h = ground arith
to_reporter_policy c (system j) h = ground arith

to_center_policy :
    (c : Content) (actor : TransitionActor)
    → policy_guard c preview_generating awaiting_center_review actor ≡ ok tt
    → c.origin ≢ reporter_upload
unfolding policy_guard
to_center_policy c (user u) h = λ e. ground arith
to_center_policy c (system j) h = λ e. ground arith

require-ok : (b : Bool) (e : ApiErrorCode) → require b e ≡ ok tt → b ≡ true
require-ok true e h = refl
require-ok false e h = cc

owner_of_check :
    (c : Content) (u : User)
    → require_owner_reporter c u ≡ ok tt
    → (u.role ≡ reporter) × (c.reporter_id ≡ some u.id)
unfolding require_owner_reporter
owner_of_check c u h =
    let (role, owner) = and_true _ _ (require-ok _ _ h) in
    (eq_of_test u.role reporter role, eq_of_test c.reporter_id (some u.id) owner)

by_owner_policy :
    (c : Content) (to : ContentStatus) (u : User)
    → includes reporter_review_decisions to ≡ true
    → policy_guard c awaiting_reporter_review to (user u) ≡ ok tt
    → (u.role ≡ reporter) × (c.reporter_id ≡ some u.id)
unfolding policy_guard
by_owner_policy c reporter_approved u k h = owner_of_check c u h
by_owner_policy c revision_requested u k h = owner_of_check c u h
by_owner_policy c rejected u k h = owner_of_check c u h
by_owner_policy c _ u k h = cc

abbrev pub Known : Content → Db → Type 0
Known c s = identity_of s c.id ≡ some (record { origin = c.origin; reporter_id = c.reporter_id })

view-hop_data :
    (c : Content) (from to : ContentStatus) (actor : TransitionActor) (opts : HopOpts) (now : ℕ)
    (m : Mutate) (r : ContentColumns)
    → view_row (some (hop_data c to m now r))
      ≡ some (
          after_log
            (hop_log c from to actor opts now)
            (record { status = r.status; generation = r.generation }))
unfolding hop_data
view-hop_data c from to actor opts now nothing r = refl
view-hop_data c from to actor opts now (approval u t) r = refl
view-hop_data c from to actor opts now (failure e t) r = refl

identity-hop_data :
    (c : Content) (to : ContentStatus) (now : ℕ) (m : Mutate) (r : ContentColumns)
    → identity_row (some (hop_data c to m now r)) ≡ identity_row (some r)
unfolding hop_data
identity-hop_data c to now nothing r = refl
identity-hop_data c to now (approval u t) r = refl
identity-hop_data c to now (failure e t) r = refl

module _ (c : Content) (from to : ContentStatus) (actor : TransitionActor) (opts : HopOpts) (s : Db)
    (r : ContentColumns) (found : s.contents c.id ≡ some r) where
  abbrev after : Db
  after = hop_state c from to actor opts r s

  found_at : (id : String) → (c.id == id) ≡ true → s.contents id ≡ some r
  found_at id same = rw (eq_of_test c.id id same) at found

  hop-Trail :
      (id : String)
      → r.status ≡ from
      → Trail id (view_of s id) (hop_log c from to actor opts s.clock ∷ []) (view_of after id)
  hop-Trail id st = elim (Bool-cases (c.id == id)) [
    | inl same ↦ rw same (
        rw (found_at id same) (
          subst
            (λ w.
              Trail id (some (record { status = r.status; generation = r.generation }))
                (hop_log c from to actor opts s.clock ∷ []) w)
            (sym (view-hop_data c from to actor opts s.clock opts.mutate r))
            (Trail.own (eq_of_test c.id id same) st Trail.done)))
    | inr differs ↦ rw differs (Trail.other (ne_of_test c.id id differs) Trail.done)
  ]

  hop-identity : (id : String) → identity_of after id ≡ identity_of s id
  hop-identity id = elim (Bool-cases (c.id == id)) [
    | inl same ↦ rw same (rw (found_at id same) (identity-hop_data c to s.clock opts.mutate r))
    | inr differs ↦ rw differs refl
  ]

hop_log-Legal :
    (c : Content) (from to : ContentStatus) (actor : TransitionActor) (opts : HopOpts) (s t : Db)
    → Checked c from to actor
    → GateOpen c from to s
    → ((id : String) → s.resident_uploads id ≡ t.resident_uploads id)
    → Legal
        (record { origin = c.origin; reporter_id = c.reporter_id })
        t
        (hop_log c from to actor opts s.clock)
hop_log-Legal c from to actor opts s t k gate same = record {
  on_map = k.on_map;
  to_reporter = λ p q. to_reporter_policy c actor (rw (p, q) at (k.by_policy));
  to_center = λ p q. to_center_policy c actor (rw (p, q) at (k.by_policy));
  by_owner = λ u p q e. by_owner_policy c to u q (rw (p, e) at (k.by_policy));
  reviewed = λ p q o. sym (same c.id) ∙ gate p q o;
}

hop-Audited :
    (c : Content) (from to : ContentStatus) (actor : TransitionActor) (opts : HopOpts)
    (idempotent : Bool) (s : Db)
    → Checked c from to actor
    → Known c s
    → Applied c from to actor opts idempotent s
    → Audited s (apply_hop c from to actor opts idempotent s).1
hop-Audited c from to actor opts idempotent s k known a = rw a.result (record {
  fresh = hop_log c from to actor opts s.clock ∷ [];
  logged = refl;
  trail = λ id. hop-Trail c from to actor opts s a.row a.row_found id a.row_status;
  legal = (
    (
      record { origin = c.origin; reporter_id = c.reporter_id },
      hop-identity c from to actor opts s a.row a.row_found c.id ∙ known,
      hop_log-Legal c from to actor opts s _ k a.gate (λ id. refl),
    ),
    tt,
  );
  same_identity = hop-identity c from to actor opts s a.row a.row_found;
  stays_approved = λ id h. h;
})

pub apply_hop-Audited :
    (c : Content) (from to : ContentStatus) (actor : TransitionActor) (opts : HopOpts)
    (idempotent : Bool)
    → Checked c from to actor
    → Guarantee Audited (Known c) (apply_hop c from to actor opts idempotent)
apply_hop-Audited c from to actor opts idempotent k = record {
  at = λ s known. elim (apply_hop-cases c from to actor opts idempotent s) [
    | inl refused ↦ rw refused.result (Audited-order.reflexive s)
    | inr applied ↦ hop-Audited c from to actor opts idempotent s k known applied
  ];
}
