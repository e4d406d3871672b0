-- ===== src/Api/Pipeline/Quiet.antt =====
-- A hop of the pipeline while nothing else runs.
use gachinol.Prelude.{
  ℕ, ◌≡◌, ◌≢◌, refl, ap, ◌∙◌, subst, String, Bool, true, false, some, ◌==◌, string_eq, eq_self,
  test_of_ne,
}
use gachinol.Shared.ContentStatus.{
  ContentStatus, content_status_eq, published, can_transition_content,
}
use gachinol.Api.Exec.{Result, ok, when, pure, transaction, ◌>>=◌, ◌>>◌}
use gachinol.Api.Contents.Database.{ContentColumns, Content, system, Db}
use gachinol.Api.Contents.Workflow.Guards.{assert_allowed, policy_guard}
use gachinol.Api.Contents.Workflow.Hop.{HopOpts, hop_data}
use gachinol.Api.Contents.Workflow.HopLaws.{GateOpen, hop_state}
use gachinol.Api.Contents.Workflow.HopOutcome.{apply_hop-ready}
use gachinol.Api.Contents.Workflow.Operations.{
  load, await, sync_public_media_after_publish, apply_and_sync, apply_system_transition,
}
use gachinol.Api.Contents.Workflow.Redelivery.{after_hook, finish}
use gachinol.Api.Pipeline.System.{System, Outside, on_db, pause, system_hop}

-- Nothing else runs, and the hook for public media leaves the contents as they are.
pub record Quiet (out : Outside) : Type 0 where
  pub at_pause : (s : System) → out.between s ≡ s
  pub at_await : (s : Db) → out.workflow.between s ≡ s
  pub hook :
      (id : String) (g : ℕ) (s : Db)
      → (out.workflow.sync_published_copies id g s).1.contents ≡ s.contents

assert_allowed-on_map :
    (from to : ContentStatus)
    → can_transition_content from to ≡ true
    → assert_allowed from to ≡ ok tt
unfolding assert_allowed
assert_allowed-on_map from to h = rw h refl

-- What a transition needs.
pub record Passes (c : Content) (from to : ContentStatus) (job : String) (s : Db) : Type 0 where
  pub on_map : can_transition_content from to ≡ true
  pub by_policy : policy_guard c from to (system (some job)) ≡ ok tt
  pub gate : GateOpen c from to s

abbrev pub row_of : String → ContentColumns → Content
row_of id r = record { id = id; columns = r }

module _ {out : Outside} (q : Quiet out) (id job : String) (to : ContentStatus) (opts : HopOpts)
    (s : System) (r : ContentColumns) (found : s.db.contents id ≡ some r) where
  -- A content at another status stays as it is.
  pub system_hop-past :
      (from : ContentStatus)
      → r.status ≢ from
      → system_hop out id from to job opts s ≡ (ok false, s)
  unfolding system_hop pause on_db apply_system_transition ◌>>=◌ load
  system_hop-past from differs = rw (q.at_pause s, found, test_of_ne r.status from differs) refl

  abbrev pub Landed : Result Bool × System → Type 0
  Landed (answer, t) =
      (answer ≡ ok true)
      × (t.db.contents id ≡ some (hop_data (row_of id r) to opts.mutate s.db.clock r))

  lands_from_here :
      Passes (row_of id r) r.status to job s.db → Landed (system_hop out id r.status to job opts s)
  unfolding system_hop pause on_db apply_system_transition apply_and_sync ◌>>=◌ load await
      transaction
  lands_from_here p =
      rw
        (
          q.at_pause s,
          found,
          eq_self r.status,
          p.by_policy,
          assert_allowed-on_map r.status to p.on_map,
          q.at_await s.db,
          apply_hop-ready (row_of id r) r.status to (system (some job)) opts true s.db r found refl
              p.gate,
          q.at_await hopped,
        )
        (
          ap (λ x. x.0) synced,
          ap (λ x. x.1.contents id) synced
              ∙ ap (λ x. x id)
                  (after_hook out.workflow q.hook (to == published) (row_of id r) hopped)
              ∙ rw (eq_self id) refl,
        )
    where
      hopped : Db
      hopped = hop_state (row_of id r) r.status to (system (some job)) opts r s.db

      synced :
          (when (to == published) (sync_public_media_after_publish out.workflow id r.generation)
              >> pure true)
            hopped
          ≡ (
            ok true,
            (when
                (to == published)
                (sync_public_media_after_publish out.workflow id r.generation)
                hopped).1,
          )
      synced = finish out.workflow q.hook (to == published) (row_of id r) hopped

  -- An allowed transition is applied.
  pub system_hop-lands :
      (from : ContentStatus)
      → r.status ≡ from
      → Passes (row_of id r) from to job s.db
      → Landed (system_hop out id from to job opts s)
  system_hop-lands from st p =
      subst (λ f. Passes (row_of id r) f to job s.db → Landed (system_hop out id f to job opts s))
        st lands_from_here p
