-- ===== src/Api/Contents/Workflow/Discipline.antt =====
-- Rely and guarantee for the methods of `ContentWorkflowService`: what holds of every hop, and of
-- whatever runs while a method waits, holds of each method as a whole.
use gachinol.Prelude.{◌≡◌, refl, String, Bool, true, false, Option, none, some, arith}
use gachinol.Shared.ContentStatus.{
  ContentStatus, content_status_eq, published, can_transition_content,
}
use gachinol.Api.Exec.{ok, Exec, transaction, ◌>>=◌, ◌>>◌}
use gachinol.Api.Exec.Guarantee.{Preorder, Stable, Guarantee, Guarantee-transaction, Guarantee-bind}
use gachinol.Api.Contents.Database.{Content, TransitionActor, RevisionRequest, Db, find_content}
use gachinol.Api.Contents.Workflow.Guards.{assert_allowed, policy_guard}
use gachinol.Api.Contents.Workflow.Hop.{HopOpts, apply_hop}
use gachinol.Api.Contents.Workflow.Revisions.{create_revision_request, resolve_revision_requests}
use gachinol.Api.Contents.Workflow.Operations.{Environment, load, await, commit_hop}

-- What the callers of `applyHop` have checked: the edge is on the map, the policy guard let it
-- pass, and a hop to `published` starts from the status that was loaded.
pub record Checked (c : Content) (from to : ContentStatus) (actor : TransitionActor) : Type 0 where
  pub on_map : can_transition_content from to ≡ true
  pub by_policy : policy_guard c from to actor ≡ ok tt
  pub from_loaded : to ≡ published → from ≡ c.status

-- `R` relates the database before and after. `Start` holds before each method, `Known c` once the
-- row `c` has been loaded.
pub record Discipline (R : Db → Db → Type 0) (Start : Db → Type 0) (Known : Content → Db → Type 0)
    : Type 0 where
  pub order : Preorder R
  pub known_stable : (c : Content) → Stable R (Known c)
  pub known_load :
      (id : String) (c : Content) (s : Db) → Start s → find_content id s ≡ some c → Known c s
  pub hop :
      (c : Content) (from to : ContentStatus) (actor : TransitionActor) (opts : HopOpts)
      (idempotent : Bool)
      → Checked c from to actor
      → Guarantee R (Known c) (apply_hop c from to actor opts idempotent)
  pub revise :
      (c : Content) (row : RevisionRequest) → Guarantee R (Known c) (create_revision_request row)
  pub resolve : (id job : String) → Guarantee R Start (resolve_revision_requests id job)

-- The other requests and the media hooks keep to `R` as well.
pub record Obeys (R : Db → Db → Type 0) (env : Environment) : Type 0 where
  pub between : (s : Db) → R s (env.between s)
  pub sync : (id : String) (g : _) (s : Db) → R s (env.sync_published_copies id g s).1
  pub remove : (id : String) (g : _) (s : Db) → R s (env.remove_published_copies id g s).1

pub assert_allowed-ok :
    (from to : ContentStatus) {a : Unit {0}}
    → assert_allowed from to ≡ ok a
    → can_transition_content from to ≡ true
unfolding assert_allowed
assert_allowed-ok from to h = ground arith

module _ {R : Db → Db → Type 0} {Start : Db → Type 0} {Known : Content → Db → Type 0}
    (d : Discipline R Start Known) where
  pub load-obeys :
      {A : Type 0} (id : String) (f : Content → Exec Db A)
      → ((c : Content) → Guarantee R (Known c) (f c))
      → Guarantee R Start (load id >>= f)
  unfolding load ◌>>=◌
  load-obeys id f g = record { at = λ s h. go s h (find_content id s) refl }
    where
      go :
          (s : Db)
          → Start s
          → (o : Option Content) → find_content id s ≡ o
          → R s ((load id >>= f) s).1
      go s h none e = rw e (d.order.reflexive s)
      go s h (some c) e = rw e ((g c).at s (d.known_load id c s h e))

  module _ (c : Content) where
    pub reload-obeys : (id : String) → Guarantee R (Known c) (load id)
    unfolding load
    reload-obeys id = record { at = λ s h. d.order.reflexive s }

    pub then-obeys :
        {A B : Type 0} (m : Exec Db A) (f : A → Exec Db B)
        → Guarantee R (Known c) m
        → ((a : A) → Guarantee R (Known c) (f a))
        → Guarantee R (Known c) (m >>= f)
    then-obeys m f g k = Guarantee-bind d.order m f (d.known_stable c) g k

    module _ {env : Environment} (o : Obeys R env) where
      pub await-obeys : Guarantee R (Known c) (await env)
      unfolding await
      await-obeys = record { at = λ s h. o.between s }

      -- wait, a transaction, wait, then the rest
      pub commit-obeys :
          {A B : Type 0} (m : Exec Db A) (rest : Exec Db B)
          → Guarantee R (Known c) m
          → Guarantee R (Known c) rest
          → Guarantee R (Known c) (do await env; transaction m; await env; rest)
      commit-obeys m rest g k = then-obeys _ _ await-obeys λ _.
          then-obeys _ _ (Guarantee-transaction d.order m g) λ _. then-obeys _ _ await-obeys λ _. k

      pub commit_hop-obeys :
          (from to : ContentStatus) (actor : TransitionActor) (opts : HopOpts)
          → Checked c from to actor
          → Guarantee R (Known c) (commit_hop env c from to actor opts)
      unfolding commit_hop
      commit_hop-obeys from to actor opts h =
          commit-obeys _ _ (d.hop c from to actor opts false h) (reload-obeys c.id)
