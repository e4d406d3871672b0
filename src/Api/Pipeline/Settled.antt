-- ===== src/Api/Pipeline/Settled.antt =====
-- Late and repeated events: a content that has left the stages of processing.
use gachinol.Prelude.{
  ℕ, ◌≡◌, ◌≢◌, refl, sym, ap, ◌∙◌, String, Bool, true, false, Option, none, some, some-injective,
  List, [], ◌∷◌, string_eq, eq_self, includes, if◌then◌else◌,
}
use gachinol.Shared.ContentStatus.{
  ContentStatus, content_status_eq, uploaded, processing, analyzing, preview_generating,
  regenerating,
}
use gachinol.Api.Exec.{Exec, pure, gets, attempt, for_each, ◌>>=◌, ◌>>◌}
use gachinol.Api.Exec.Guarantee.{
  Preorder, Stable, Guarantee, Guarantee-pure, Guarantee-gets, Guarantee-attempt, Guarantee-if,
  Guarantee-bind, Guarantee-for_each,
}
use gachinol.Api.Contents.Database.{ContentColumns, Content}
use gachinol.Api.Contents.Workflow.Hop.{HopOpts}
use gachinol.Api.Pipeline.System.{
  System, Outside, on_db, modify, set_duration, pause, load_content_row, system_hop,
}
use gachinol.Api.Pipeline.Quiet.{Quiet, row_of, system_hop-past}

-- The statuses in which media jobs and analysis jobs run.
abbrev pub is_in_processing : ContentStatus → Bool
is_in_processing st =
    includes (uploaded ∷ processing ∷ analyzing ∷ preview_generating ∷ regenerating ∷ []) st

abbrev status_row : Option ContentColumns → Option ContentStatus
status_row none = none
status_row (some r) = some r.status

abbrev pub status_of : String → System → Option ContentStatus
status_of id s = status_row (s.db.contents id)

pub record Unmoved (id : String) (s t : System) : Type 0 where
  pub no_job : t.added ≡ s.added
  pub same_status : status_of id t ≡ status_of id s

abbrev pub IsPast : String → System → Type 0
IsPast id s = (st : ContentStatus) × (status_of id s ≡ some st) × (is_in_processing st ≡ false)

row_of_status :
    (o : Option ContentColumns) (st : ContentStatus)
    → status_row o ≡ some st
    → (r : ContentColumns) × (o ≡ some r) × (r.status ≡ st)
row_of_status none st e = cc
row_of_status (some r) st e = (r, refl, some-injective _ _ e)

module _ {out : Outside} (q : Quiet out) (id : String) where
  Unmoved-order : Preorder (Unmoved id)
  Unmoved-order = record {
    reflexive = λ s. record { no_job = refl; same_status = refl };
    transitive = λ s t u a b. record {
      no_job = b.no_job ∙ a.no_job;
      same_status = b.same_status ∙ a.same_status;
    };
  }

  IsPast-stable : Stable (Unmoved id) (IsPast id)
  IsPast-stable s t a (st, e, h) = (st, a.same_status ∙ e, h)

  abbrev pub Settles : {A : Type 0} → Exec System A → Type 0
  Settles m = Guarantee (Unmoved id) (IsPast id) m

  module _ {A B : Type 0} where
    pub bind-Settles :
        {m : Exec System A} {f : A → Exec System B}
        → Settles m
        → ((a : A) → Settles (f a))
        → Settles (m >>= f)
    bind-Settles {m} {f} g k = Guarantee-bind Unmoved-order m f IsPast-stable g k

  pub pause-Settles : Settles (pause out)
  unfolding pause
  pause-Settles = record { at = λ s h. rw (q.at_pause s) (Unmoved-order.reflexive s) }

  pub paused-Settles : {A : Type 0} {m : Exec System A} → Settles m → Settles (pause out >> m)
  paused-Settles g = bind-Settles pause-Settles λ _. g

  pub done-Settles : Settles (pure (tt {0}))
  done-Settles = Guarantee-pure Unmoved-order tt

  pub gets-Settles : {A : Type 0} (f : System → A) → Settles (gets f)
  gets-Settles f = Guarantee-gets Unmoved-order f

  pub attempt-Settles : {A : Type 0} {m : Exec System A} → Settles m → Settles (attempt m)
  attempt-Settles {m = m} g = Guarantee-attempt Unmoved-order m g

  pub if-Settles :
      {A : Type 0} (b : Bool) {m n : Exec System A}
      → Settles m
      → Settles n
      → Settles (if b then m else n)
  if-Settles b {m} {n} g k = Guarantee-if Unmoved-order b m n (λ _. g) (λ _. k)

  pub for_each-Settles :
      {A : Type 0} (xs : List A) {f : A → Exec System (Unit {0})}
      → ((a : A) → Settles (f a))
      → Settles (for_each xs f)
  for_each-Settles xs {f} g = Guarantee-for_each Unmoved-order xs f IsPast-stable g

  -- A change that leaves the contents and the queues alone.
  pub modify-Settles :
      (f : System → System)
      → ((s : System) → ((f s).db ≡ s.db) × ((f s).added ≡ s.added))
      → Settles (modify f)
  unfolding modify
  modify-Settles f h = record {
    at = λ s _. record {
      no_job = (h s).1;
      same_status = ap (λ x. status_row (x.contents id)) (h s).0;
    };
  }

  pub set_duration-Settles : (n : ℕ) → Settles (on_db (set_duration id n))
  unfolding on_db set_duration
  set_duration-Settles n = record { at = λ s (st, e, h). go s st e (s.db.contents id) refl }
    where
      go :
          (s : System) (st : ContentStatus)
          → status_of id s ≡ some st
          → (o : Option ContentColumns) → s.db.contents id ≡ o
          → Unmoved id s (on_db (set_duration id n) s).1
      go s st e none f = rw f (Unmoved-order.reflexive s)
      go s st e (some r) f = rw f (record { no_job = refl; same_status = rw (f, eq_self id) refl })

  -- A hop out of a stage of processing is not applied.
  pub hop-Settles :
      {A : Type 0} (from to : ContentStatus) (job : String) (opts : HopOpts)
      (f : Bool → Exec System A)
      → is_in_processing from ≡ true
      → Settles (f false)
      → Settles (system_hop out id from to job opts >>= f)
  unfolding ◌>>=◌
  hop-Settles from to job opts f stage g = record {
    at = λ s (st, e, h).
        let (r, found, same) = row_of_status (s.db.contents id) st e in
        let other : r.status ≢ from = λ p. apart st h (sym same ∙ p) in
        rw (system_hop-past q id job to opts s r found from other) (g.at s (st, e, h));
  }
    where
      apart : (st : ContentStatus) → is_in_processing st ≡ false → st ≢ from
      apart st h p = cc (ap is_in_processing p)

  -- The row is there, and at none of those statuses.
  pub with_content-Settles :
      {A : Type 0} (f : Option Content → Exec System A)
      → ((r : ContentColumns)
          → is_in_processing r.status ≡ false
          → Settles (f (some (row_of id r))))
      → Settles (do pause out; c ← load_content_row id; f c)
  unfolding ◌>>=◌ pause load_content_row
  with_content-Settles f g = record {
    at = λ s (st, e, h).
        let (r, found, same) = row_of_status (s.db.contents id) st e in
        rw (q.at_pause s, found) ((g r (ap is_in_processing same ∙ h)).at s (st, e, h));
  }
