-- ===== src/Api/Pipeline/Keeps.antt =====
-- What the handlers of the pipeline do to the database: the rules of `Exec.Guarantee`, for a
-- relation on the database alone.
use gachinol.Prelude.{ℕ, ◌≡◌, sym, subst, String, Bool, List, if◌then◌else◌}
use gachinol.Shared.ContentStatus.{ContentStatus}
use gachinol.Api.Exec.{Result, Exec, pure, lift, gets, attempt, when, for_each, ◌>>=◌, ◌>>◌}
use gachinol.Api.Exec.Guarantee.{
  Preorder, Stable, Guarantee, Guarantee-pure, Guarantee-lift, Guarantee-gets, Guarantee-attempt,
  Guarantee-if, Guarantee-when, Guarantee-bind, Guarantee-for_each,
}
use gachinol.Api.Contents.Database.{Content, Db}
use gachinol.Api.Contents.Workflow.Hop.{HopOpts}
use gachinol.Api.Contents.Workflow.Discipline.{Discipline, Obeys}
use gachinol.Api.Contents.Workflow.Methods.{apply_system_transition-obeys}
use gachinol.Api.Pipeline.System.{
  System, Outside, on_db, modify, pause, set_duration, load_content_row, system_hop,
}

abbrev pub OnDb : (Db → Db → Type 0) → System → System → Type 0
OnDb R s t = R s.db t.db

-- A discipline of the workflow that a change of the duration keeps as well.
pub record PipelineDiscipline (R : Db → Db → Type 0) (Start : Db → Type 0)
    (Known : Content → Db → Type 0) : Type 0 where
  pub hops : Discipline R Start Known
  pub start_stable : Stable R Start
  pub duration : (id : String) (n : ℕ) → Guarantee R Start (set_duration id n)

-- The rest of the server keeps to `R` as well.
pub record OutsideObeys (R : Db → Db → Type 0) (out : Outside) : Type 0 where
  pub workflow : Obeys R out.workflow
  pub between : (s : System) → R s.db (out.between s).db

module _ {R : Db → Db → Type 0} {Start : Db → Type 0} {Known : Content → Db → Type 0}
    (d : PipelineDiscipline R Start Known) where
  abbrev pub Keeps : {A : Type 0} → Exec System A → Type 0
  Keeps m = Guarantee (OnDb R) (λ s. Start s.db) m

  pub on_system : Preorder (OnDb R)
  on_system = record {
    reflexive = λ s. d.hops.order.reflexive s.db;
    transitive = λ s t u. d.hops.order.transitive s.db t.db u.db;
  }

  pub stable : Stable (OnDb R) (λ s. Start s.db)
  stable s t = d.start_stable s.db t.db

  module _ {A B : Type 0} where
    pub bind-Keeps :
        {m : Exec System A} {f : A → Exec System B}
        → Keeps m
        → ((a : A) → Keeps (f a))
        → Keeps (m >>= f)
    bind-Keeps {m} {f} g k = Guarantee-bind on_system m f stable g k

  module _ {A : Type 0} where
    pub pure-Keeps : (a : A) → Keeps (pure a)
    pure-Keeps a = Guarantee-pure on_system a

    pub lift-Keeps : (r : Result A) → Keeps (lift r)
    lift-Keeps r = Guarantee-lift on_system r

    pub gets-Keeps : (f : System → A) → Keeps (gets f)
    gets-Keeps f = Guarantee-gets on_system f

    pub attempt-Keeps : {m : Exec System A} → Keeps m → Keeps (attempt m)
    attempt-Keeps {m} g = Guarantee-attempt on_system m g

    pub if-Keeps : (b : Bool) {m n : Exec System A} → Keeps m → Keeps n → Keeps (if b then m else n)
    if-Keeps b {m} {n} g k = Guarantee-if on_system b m n (λ _. g) (λ _. k)

    pub on_db-Keeps : (m : Exec Db A) → Guarantee R Start m → Keeps (on_db m)
    unfolding on_db
    on_db-Keeps m g = record { at = λ s h. g.at s.db h }

    pub for_each-Keeps :
        (xs : List A) {f : A → Exec System (Unit {0})}
        → ((a : A) → Keeps (f a))
        → Keeps (for_each xs f)
    for_each-Keeps xs {f} g = Guarantee-for_each on_system xs f stable g

  pub when-Keeps : (b : Bool) {m : Exec System (Unit {0})} → Keeps m → Keeps (when b m)
  when-Keeps b {m} g = Guarantee-when on_system b m g

  -- A change outside the database.
  pub modify-Keeps : (f : System → System) → ((s : System) → (f s).db ≡ s.db) → Keeps (modify f)
  unfolding modify
  modify-Keeps f same = record {
    at = λ s h. subst (R s.db) (sym (same s)) (d.hops.order.reflexive s.db);
  }

  pub load_content_row-Keeps : (id : String) → Keeps (load_content_row id)
  unfolding load_content_row
  load_content_row-Keeps id = record { at = λ s h. d.hops.order.reflexive s.db }

  module _ {out : Outside} (o : OutsideObeys R out) where
    pub pause-Keeps : Keeps (pause out)
    unfolding pause
    pause-Keeps = record { at = λ s h. o.between s }

    pub paused-Keeps : {A : Type 0} {m : Exec System A} → Keeps m → Keeps (pause out >> m)
    paused-Keeps g = bind-Keeps pause-Keeps λ _. g

    pub system_hop-Keeps :
        (id : String) (from to : ContentStatus) (job : String) (opts : HopOpts)
        → Keeps (system_hop out id from to job opts)
    unfolding system_hop
    system_hop-Keeps id from to job opts =
        bind-Keeps pause-Keeps
          λ _. on_db-Keeps _ (apply_system_transition-obeys d.hops o.workflow id from to job opts)
