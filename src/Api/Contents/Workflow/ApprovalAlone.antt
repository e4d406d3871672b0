-- ===== src/Api/Contents/Workflow/ApprovalAlone.antt =====
-- `approve` by the reporter with no other request in the way.
use gachinol.Prelude.{◌≡◌, refl, sym, ap, subst, ◌∙◌, String, true, false, none, some}
use gachinol.Shared.ContentStatus.{
  ContentStatus, reporter_approved, ReviewPolicy, reporter_only, reporter_then_center,
  after_reporter_approval, can_transition_content,
}
use gachinol.Api.Exec.{ok, transaction, ◌>>=◌, ◌>>◌}
use gachinol.Api.Users.{User}
use gachinol.Api.Contents.Database.{Text, Content, TransitionActor, user, system, Db}
use gachinol.Api.Contents.Workflow.Guards.{assert_allowed, policy_guard}
use gachinol.Api.Contents.Workflow.Hop.{HopOpts, approval, with_note, apply_hop}
use gachinol.Api.Contents.Workflow.HopLaws.{hop_state}
use gachinol.Api.Contents.Workflow.Operations.{Environment, load, await, approve_as_reporter}
use gachinol.Shared.ContentStatus.{
  content_status_eq, awaiting_reporter_review, awaiting_center_review,
}
use gachinol.Prelude.{◌==◌, string_eq, eq_self, ℕ}
use gachinol.Api.Users.{reporter, user_role_eq}
use gachinol.Api.Contents.Database.{ContentColumns}
use gachinol.Api.Contents.Workflow.Guards.{require_owner_reporter}
use gachinol.Api.Contents.Workflow.Hop.{hop_data, nothing}
use gachinol.Api.Contents.Workflow.HopOutcome.{apply_hop-ready}
use gachinol.Api.Contents.Workflow.Operations.{approve, approve_at_center}

-- The row that a hop has written is the one that is read.
read_back :
    (c : Content) (from to : ContentStatus) (actor : TransitionActor) (opts : HopOpts)
    (r : ContentColumns) (s : Db)
    → (hop_state c from to actor opts r s).contents c.id
      ≡ some (hop_data c to opts.mutate s.clock r)
read_back c from to actor opts r s = rw (eq_self c.id) refl

owner_passes :
    (c : Content) (u : User)
    → u.role ≡ reporter
    → c.reporter_id ≡ some u.id
    → policy_guard c awaiting_reporter_review reporter_approved (user u) ≡ ok tt
unfolding policy_guard require_owner_reporter
owner_passes c u role owner = rw (role, owner, eq_self u.id) refl

row_status :
    (c : Content) (u : User) (now : ℕ) (r : ContentColumns)
    → (hop_data c reporter_approved (approval u.id now) now r).status ≡ reporter_approved
unfolding hop_data
row_status c u now r = refl

chained_row :
    (c : Content) (u : User) (now : ℕ) (policy : ReviewPolicy) (r : ContentColumns)
    → hop_data c
        (after_reporter_approval policy)
        nothing
        now
        (hop_data c reporter_approved (approval u.id now) now r)
      ≡ record r {
        status = after_reporter_approval policy;
        approved_by_user_id = some u.id;
        approved_at = some now;
      }
unfolding hop_data after_reporter_approval
chained_row c u now reporter_only r = refl
chained_row c u now reporter_then_center r = refl

module _ (env : Environment) (quiet : (t : Db) → env.between t ≡ t) (chain_note : Text)
    (c : Content) (u : User) (s : Db) (found : s.contents c.id ≡ some c.columns)
    (st : c.status ≡ awaiting_reporter_review) (role : u.role ≡ reporter)
    (owner : c.reporter_id ≡ some u.id) where
  abbrev opts : HopOpts
  opts = record { note = none; mutate = approval u.id s.clock }

  abbrev chained : ContentStatus
  chained = after_reporter_approval c.review_policy

  abbrev mid : Db
  mid = hop_state c c.status reporter_approved (user u) opts c.columns s

  abbrev mid_row : ContentColumns
  mid_row = hop_data c reporter_approved (approval u.id s.clock) s.clock c.columns

  abbrev end : Db
  end =
      hop_state c reporter_approved chained (system none) (with_note (some chain_note)) mid_row mid

  row_at_end :
      end.contents c.id
      ≡ some (record (c.columns) {
        status = chained;
        approved_by_user_id = some u.id;
        approved_at = some s.clock;
      })
  row_at_end =
      read_back c reporter_approved chained (system none) (with_note (some chain_note)) mid_row mid
      ∙ ap some (chained_row c u s.clock c.review_policy c.columns)

  both_applied :
      transaction
        (do
          apply_hop c c.status reporter_approved (user u) opts false
          apply_hop c reporter_approved chained (system none) (with_note (some chain_note)) false)
        s
      ≡ (ok true, end)
  unfolding transaction ◌>>=◌
  both_applied =
      rw
        (
          apply_hop-ready c c.status reporter_approved (user u) opts false s c.columns found refl
              (λ p q o. cc),
          apply_hop-ready c reporter_approved chained (system none) (with_note (some chain_note))
              false mid mid_row (read_back c c.status reporter_approved (user u) opts c.columns s)
              (row_status c u s.clock c.columns) (λ p q o. cc),
        )
        refl

  allowed : assert_allowed c.status reporter_approved ≡ ok tt
  unfolding assert_allowed can_transition_content
  allowed = rw st refl

  passes : policy_guard c c.status reporter_approved (user u) ≡ ok tt
  passes =
      subst (λ x. policy_guard c x reporter_approved (user u) ≡ ok tt) (sym st)
        (owner_passes c u role owner)

  run_approval :
      (approve_as_reporter env chain_note c u s).0
      ≡ ok (record {
        id = c.id;
        columns = record (c.columns) {
          status = chained;
          approved_by_user_id = some u.id;
          approved_at = some s.clock;
        };
      })
  unfolding approve_as_reporter ◌>>=◌ await load
  run_approval = rw (passes, allowed, quiet s, both_applied, quiet end, row_at_end) refl

not_at_center :
    (x : ContentStatus) → x ≡ awaiting_reporter_review → (x == awaiting_center_review) ≡ false
not_at_center x h = rw h refl

-- With no other request in the way, the owner's approval of a content under review succeeds, and
-- the content goes to what its review policy asks for, with the approval recorded.
pub approve-alone :
    (env : Environment) (chain_note : Text) (u : User) (s : Db) (id : String) (r : ContentColumns)
    → ((t : Db) → env.between t ≡ t)
    → s.contents id ≡ some r
    → r.status ≡ awaiting_reporter_review
    → u.role ≡ reporter
    → r.reporter_id ≡ some u.id
    → (approve env chain_note id u s).0
      ≡ ok (record {
        id = id;
        columns = record r {
          status = after_reporter_approval r.review_policy;
          approved_by_user_id = some u.id;
          approved_at = some s.clock;
        };
      })
unfolding approve approve_at_center ◌>>=◌ load
approve-alone env chain_note u s id r quiet found st role owner =
    let run =
      run_approval env quiet chain_note (record { id = id; columns = r }) u s found st role owner in
    rw (found, not_at_center r.status st) run
