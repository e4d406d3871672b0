-- ===== src/Api/Distribution/OrchestratorKeep.antt =====
-- The methods of the orchestrator keep to a discipline of the workflow: its reads and its writes to
-- publications.
use gachinol.Prelude.{◌≡◌, refl, String, Bool, true, false, Option, none, some, List, [], ◌∷◌}
use gachinol.Api.Exec.{Exec, transaction, ◌>>=◌}
use gachinol.Api.Exec.Guarantee.{Guarantee-transaction}
use gachinol.Api.Users.{User}
use gachinol.Api.Contents.Database.{Content, Db, find_content}
use gachinol.Api.Publications.Service.{Publication}
use gachinol.Api.Distribution.Channels.{ChannelAccount, Accounts}
use gachinol.Api.Distribution.Jobs.{Desk, add_targets, pack_and_add, enqueue_publish}
use gachinol.Api.Distribution.Orchestrator.{
  on_table, load_row, load_publication, create_queued_for, create_all, finish, distribute_to,
  start_auto_distribution, retract_publication,
}
use gachinol.Api.Distribution.Requests.{
  refreshed, requeue_row, requeue_rows, requeue_failed_for_content, requeue_failed_for_status,
}
use gachinol.Api.Pipeline.System.{PublishTargetItem, System, Outside}
use gachinol.Api.Pipeline.Keeps.{
  PipelineDiscipline, OutsideObeys, Keeps, on_system, bind-Keeps, pure-Keeps, lift-Keeps,
  gets-Keeps, if-Keeps, paused-Keeps,
}
use gachinol.Api.Pipeline.ProducersKeep.{add_job-Keeps}

module _ {R : Db → Db → Type 0} {Start : Db → Type 0} {Known : Content → Db → Type 0}
    (d : PipelineDiscipline R Start Known) where
  -- once the row `c` has been loaded
  pub at_row : (c : Content) → PipelineDiscipline R (λ s. Start s × Known c s) Known
  at_row c = record {
    hops = record {
      order = d.hops.order;
      known_stable = d.hops.known_stable;
      known_load = λ id c' s h. d.hops.known_load id c' s h.0;
      hop = d.hops.hop;
      revise = d.hops.revise;
      resolve = λ id job. record { at = λ s h. (d.hops.resolve id job).at s h.0 };
    };
    start_stable = λ s t r h. (d.start_stable s t r h.0, d.hops.known_stable c s t r h.1);
    duration = λ id n. record { at = λ s h. (d.duration id n).at s h.0 };
  }

  pub transaction-Keeps : {A : Type 0} {m : Exec System A} → Keeps d m → Keeps d (transaction m)
  transaction-Keeps {m = m} g = Guarantee-transaction (on_system d) m g

  pub on_table-Keeps : (f : _) → Keeps d (on_table f)
  unfolding on_table
  on_table-Keeps f = record { at = λ s h. d.hops.order.reflexive s.db }

  load_row-Keeps : (id : String) → Keeps d (load_row id)
  unfolding load_row
  load_row-Keeps id = record { at = λ s h. d.hops.order.reflexive s.db }

  pub with_row :
      (id : String) {A : Type 0} {f : Content → Exec System A}
      → ((c : Content) → Keeps (at_row c) (f c))
      → Keeps d (load_row id >>= f)
  unfolding load_row ◌>>=◌
  with_row id {f = f} g = record { at = λ s h. go s h (find_content id s.db) refl }
    where
      go :
          (s : System)
          → Start s.db
          → (o : Option Content) → find_content id s.db ≡ o
          → R s.db ((load_row id >>= f) s).1.db
      go s h none e = rw e (d.hops.order.reflexive s.db)
      go s h (some c) e = rw e ((g c).at s (h, d.hops.known_load id c s.db h e))

module _ {R : Db → Db → Type 0} {Start : Db → Type 0} {Known : Content → Db → Type 0}
    (d : PipelineDiscipline R Start Known) {out : Outside} (o : OutsideObeys R out) where
  create_queued_for-Keeps :
      (c : Content) (u : User) (ch : ChannelAccount) → Keeps d (create_queued_for out c u ch)
  unfolding create_queued_for
  create_queued_for-Keeps c u ch = record { at = λ s h. d.hops.order.reflexive s.db }

  pub create_all-Keeps :
      (c : Content) (u : User) (chs : Accounts) → Keeps d (create_all out c u chs)
  unfolding create_all
  create_all-Keeps c u [] = pure-Keeps d []
  create_all-Keeps c u (ch ∷ rest) =
      bind-Keeps d (create_queued_for-Keeps c u ch)
        λ _. bind-Keeps d (create_all-Keeps c u rest) λ _. pure-Keeps d _

  pub load_publication-Keeps : (id : String) → Keeps d (load_publication out id)
  unfolding load_publication
  load_publication-Keeps id =
      paused-Keeps d o (bind-Keeps d (gets-Keeps d _) λ found. lift-Keeps d _)

  add_targets-Keeps :
      (desk : Desk) (c : Content) (ts : List PublishTargetItem)
      → Keeps d (add_targets out desk c ts)
  add_targets-Keeps desk c [] = pure-Keeps d tt
  add_targets-Keeps desk c (t ∷ rest) = add_job-Keeps d o _

  pack_and_add-Keeps :
      (desk : Desk) (c : Content) (rows : List Publication) → Keeps d (pack_and_add out desk c rows)
  pack_and_add-Keeps desk c [] = pure-Keeps d tt
  pack_and_add-Keeps desk c (p ∷ rest) =
      paused-Keeps d o (bind-Keeps d (gets-Keeps d _) λ accounts. add_targets-Keeps desk c _)

  enqueue_publish-Keeps :
      (desk : Desk) (c : Content) (rows : List Publication)
      → Keeps d (enqueue_publish out desk c rows)
  unfolding enqueue_publish
  enqueue_publish-Keeps desk c rows =
      if-Keeps d _ (pack_and_add-Keeps desk c rows) (pure-Keeps d tt)

  pub finish-Keeps :
      (desk : Desk) (id : String) (rows : List Publication) → Keeps d (finish out desk id rows)
  finish-Keeps desk id rows = paused-Keeps d o (
      bind-Keeps d (load_row-Keeps d id)
        λ c. bind-Keeps d (enqueue_publish-Keeps desk c rows) λ _. pure-Keeps d rows)

  distribute_to-Keeps :
      (desk : Desk) (c : Content) (u : User) (chs : Accounts)
      → Keeps d (distribute_to out desk c u chs)
  distribute_to-Keeps desk c u [] = pure-Keeps d []
  distribute_to-Keeps desk c u (ch ∷ rest) = paused-Keeps d o (
      bind-Keeps d (transaction-Keeps d (create_all-Keeps c u (ch ∷ rest)))
        λ rows. finish-Keeps desk c.id rows)

  pub start_auto_distribution-Keeps :
      (desk : Desk) (c : Content) (u : User) → Keeps d (start_auto_distribution out desk c u)
  unfolding start_auto_distribution
  start_auto_distribution-Keeps desk c u =
      if-Keeps d _
        (paused-Keeps d o (
          bind-Keeps d (gets-Keeps d _)
            λ accounts. bind-Keeps d (lift-Keeps d _) λ chs. distribute_to-Keeps desk c u chs))
        (pure-Keeps d [])

  requeue_row-Keeps : (id : String) → Keeps d (requeue_row id)
  unfolding requeue_row
  requeue_row-Keeps id = record { at = λ s h. d.hops.order.reflexive s.db }

  refreshed-Keeps : (id : String) (hit : Bool) → Keeps d (refreshed out id hit)
  refreshed-Keeps id false = pure-Keeps d none
  refreshed-Keeps id true = paused-Keeps d o (gets-Keeps d _)

  requeue_rows-Keeps : (rows : List Publication) → Keeps d (requeue_rows out rows)
  unfolding requeue_rows
  requeue_rows-Keeps [] = pure-Keeps d []
  requeue_rows-Keeps (p ∷ rest) = paused-Keeps d o (
      bind-Keeps d (requeue_row-Keeps p.id) λ hit.
        bind-Keeps d (refreshed-Keeps p.id hit)
          λ row. bind-Keeps d (requeue_rows-Keeps rest) λ rows. pure-Keeps d _)

  pub requeue_failed_for_status-Keeps :
      (desk : Desk) (c : Content) → Keeps d (requeue_failed_for_status out desk c)
  unfolding requeue_failed_for_status requeue_failed_for_content
  requeue_failed_for_status-Keeps desk c =
      if-Keeps d _
        (bind-Keeps d
          (paused-Keeps d o (bind-Keeps d (gets-Keeps d _) λ rows. requeue_rows-Keeps rows))
          λ rows. enqueue_publish-Keeps desk c rows)
        (pure-Keeps d tt)

  pub retract_publication-Keeps :
      (desk : Desk) (id : String) (u : User) → Keeps d (retract_publication out desk id u)
  unfolding retract_publication
  retract_publication-Keeps desk id u = bind-Keeps d (load_publication-Keeps id) λ row.
      bind-Keeps d (lift-Keeps d _) λ _. bind-Keeps d (lift-Keeps d _) λ _.
        bind-Keeps d (lift-Keeps d _) λ _. paused-Keeps d o (
          bind-Keeps d (gets-Keeps d _) λ accounts. bind-Keeps d (lift-Keeps d _) λ _.
            paused-Keeps d o (
              bind-Keeps d
                (transaction-Keeps d (record { at = λ s h. (on_table-Keeps d _).at s h }))
                λ _. load_publication-Keeps id))
