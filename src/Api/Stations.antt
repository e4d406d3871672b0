-- ===== src/Api/Stations.antt =====
-- services/api/src/stations/station-workflow.service.ts: `StationWorkflowService`. `between` is what
-- other requests commit while the method waits.
use gachinol.Prelude.{
  ℕ, ◌≡◌, refl, sym, subst, ap, ◌∙◌, some-injective, inl, inr, Bool-cases, String, Bool, true,
  false, Option, none, some, List, [], ◌∷◌, ◌++◌, ◌==◌, string_eq, if◌then◌else◌,
}
use gachinol.Shared.StationStatus.{
  StationStatus, station_status_eq, dormant, can_transition_station,
}
use gachinol.Api.Exec.{
  Result, ok, err, Exec, lift, gets, transaction, or_404, require, invalid_transition, conflict,
  ◌>>=◌, ◌>>◌,
}
use gachinol.Api.Exec.Guarantee.{
  Preorder, Guarantee, Guarantee-gets, Guarantee-transaction, Guarantee-bind, Guarantee-check,
}
use gachinol.Api.Contents.Database.{Text}

pub record Station : Type 0 where
  pub status : StationStatus
  pub dormant_since : Option ℕ

pub record StationLog : Type 0 where
  pub entity_id : String
  pub from_status : StationStatus
  pub to_status : StationStatus
  pub actor_user_id : String
  pub note : Option Text
  pub at : ℕ

pub record StationDb : Type 0 where
  pub stations : String → Option Station
  pub logs : List StationLog
  pub clock : ℕ

abbrev write_station : String → Station → StationDb → StationDb
write_station id row db = record db { stations = λ k. if id == k then some row else db.stations k }

abbrev station_data : StationStatus → ℕ → Station
station_data to now = record {
  status = to;
  dormant_since = if to == dormant then some now else none;
}

abbrev cas_station :
    String → StationStatus → Station → StationDb → Option Station → Result (Unit {0}) × StationDb
cas_station id from row db none = (err conflict, db)
cas_station id from row db (some r) =
    if r.status == from then (ok tt, write_station id row db) else (err conflict, db)

unfoldable pub update_station : String → StationStatus → Station → Exec StationDb (Unit {0})
update_station id from row db = cas_station id from row db (db.stations id)

unfoldable pub create_station_log : StationLog → Exec StationDb (Unit {0})
create_station_log row db = (ok tt, record db { logs = db.logs ++ row ∷ [] })

unfoldable pub load_station : String → Exec StationDb Station
load_station id db = (or_404 (db.stations id), db)

unfoldable pub pause : (StationDb → StationDb) → Exec StationDb (Unit {0})
pause between db = (ok tt, between db)

unfoldable pub transition_station :
    (StationDb → StationDb) → String → StationStatus → String → Option Text → Exec StationDb Station
transition_station between id to actor_id reason = do
  station ← load_station id
  lift (require (can_transition_station station.status to) invalid_transition)
  now ← gets (λ db. db.clock)
  pause between
  transaction (do
    update_station id station.status (station_data to now)
    create_station_log (record {
      entity_id = id;
      from_status = station.status;
      to_status = to;
      actor_user_id = actor_id;
      note = reason;
      at = now;
    }))
  pause between
  load_station id

abbrev is_set : Option ℕ → Bool
is_set none = false
is_set (some at) = true

-- A station knows since when it is dormant exactly while it is.
abbrev pub Marked : Station → Type 0
Marked r = is_set r.dormant_since ≡ (r.status == dormant)

abbrev pub AllMarked : StationDb → Type 0
AllMarked s = (id : String) (r : Station) → s.stations id ≡ some r → Marked r

abbrev Keeps : StationDb → StationDb → Type 0
Keeps s t = AllMarked s → AllMarked t

abbrev Always : StationDb → Type 0
Always s = Unit

Keeps-order : Preorder Keeps
Keeps-order = record { reflexive = λ s h. h; transitive = λ s t u f g h. g (f h) }

station_data-Marked : (to : StationStatus) (now : ℕ) → Marked (station_data to now)
station_data-Marked to now = elim (Bool-cases (to == dormant)) [
  | inl rests ↦ rw rests refl
  | inr works ↦ rw works refl
]

update-Keeps :
    (id : String) (from to : StationStatus) (now : ℕ)
    → Guarantee Keeps Always (update_station id from (station_data to now))
unfolding update_station
update-Keeps id from to now = record { at = λ s _ inv. go s inv (s.stations id) }
  where
    go :
        (s : StationDb)
        → AllMarked s
        → (o : Option Station) → AllMarked (cas_station id from (station_data to now) s o).1
    go s inv none = inv
    go s inv (some r) = elim (Bool-cases (r.status == from)) [
      | inl same ↦ rw same λ k x found. elim (Bool-cases (id == k)) [
        | inl this ↦
            subst Marked (some-injective _ _ (rw this at found)) (station_data-Marked to now)
        | inr other ↦ inv k x (rw other at found)
      ]
      | inr other ↦ rw other inv
    ]

quiet-Keeps :
    {A : Type 0} (m : Exec StationDb A)
    → ((s : StationDb) → (m s).1.stations ≡ s.stations)
    → Guarantee Keeps Always m
quiet-Keeps m same = record {
  at = λ s _ inv id r found. inv id r (ap (λ f. f id) (sym (same s)) ∙ found);
}

then-Keeps :
    {A B : Type 0} (m : Exec StationDb A) (f : A → Exec StationDb B)
    → Guarantee Keeps Always m
    → ((a : A) → Guarantee Keeps Always (f a))
    → Guarantee Keeps Always (m >>= f)
then-Keeps m f g k = Guarantee-bind Keeps-order m f (λ s t r h. h) g k

-- A transition of a station, whatever it answers, keeps that each station knows since when it is
-- dormant exactly while it is, if the requests that run while it waits keep it.
pub transition_station-Marked :
    (between : StationDb → StationDb) (id : String) (to : StationStatus) (actor_id : String)
    (reason : Option Text) (s : StationDb)
    → ((t : StationDb) → AllMarked t → AllMarked (between t))
    → AllMarked s
    → AllMarked (transition_station between id to actor_id reason s).1
unfolding transition_station pause load_station create_station_log
transition_station-Marked between id to actor_id reason s others inv =
    (then-Keeps _ _ (quiet-Keeps (load_station id) λ t. refl) λ station.
        Guarantee-check Keeps-order _ _ λ _ allowed.
          then-Keeps _ _ (Guarantee-gets Keeps-order _) λ now. then-Keeps _ _ waits λ _.
            then-Keeps _ _
              (Guarantee-transaction Keeps-order _ (
                then-Keeps _ _ (update-Keeps id station.status to now)
                  λ _. quiet-Keeps _ λ t. refl))
              λ _. then-Keeps _ _ waits λ _. quiet-Keeps (load_station id) λ t. refl).at
      s tt inv
  where
    waits : Guarantee Keeps Always (pause between)
    waits = record { at = λ t _ i. others t i }
