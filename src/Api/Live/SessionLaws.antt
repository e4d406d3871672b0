-- ===== src/Api/Live/SessionLaws.antt =====
-- What every request keeps of the live sessions.
use gachinol.Prelude.{
  ℕ, ◌≡◌, refl, sym, ap, ◌∙◌, subst, some-injective, String, Bool, true, false, not, ◌&&◌, Option,
  none, some, ◌==◌, string_eq, Bool-cases, inl, inr, eq_of_test, arith,
}
use gachinol.Shared.LiveSessionStatus.{
  LiveSessionStatus, live_session_status_eq, preparing, live, interrupted, ended, canceled,
  can_transition_live_session,
}
use gachinol.Api.Exec.{ok, Exec, require, invalid_transition, validation_failed, ◌>>=◌}
use gachinol.Api.Exec.Guarantee.{
  Preorder, Guarantee, Guarantee-gets, Guarantee-transaction, Guarantee-bind, Guarantee-check,
}
use gachinol.Api.Live.Sessions
use gachinol.Api.Live.Sessions.{
  Session, SessionLog, LiveDb, write_session, is_some, new_session, create_session,
  initial_live_status, load_session, update_session, cas_session, create_session_log, wait,
  apply_transition,
}

-- Only emergencies are not scheduled; a session has an end time exactly once it has ended.
abbrev pub WellFormed : Session → Type 0
WellFormed r =
    (is_some r.scheduled_at ≡ not r.emergency) × (is_some r.ended_at ≡ (r.status == ended))

abbrev pub AllWellFormed : LiveDb → Type 0
AllWellFormed s = (id : String) (r : Session) → s.sessions id ≡ some r → WellFormed r

abbrev pub Keeps : LiveDb → LiveDb → Type 0
Keeps s t = AllWellFormed s → AllWellFormed t

abbrev Always : LiveDb → Type 0
Always s = Unit

Keeps-order : Preorder Keeps
Keeps-order = record { reflexive = λ s h. h; transitive = λ s t u f g h. g (f h) }

write-Keeps :
    (id : String) (row : Session) (s : LiveDb) → WellFormed row → Keeps s (write_session id row s)
write-Keeps id row s h inv k r found = elim (Bool-cases (id == k)) [
  | inl same ↦ subst WellFormed (some-injective _ _ (rw same at found)) h
  | inr other ↦ inv k r (rw other at found)
]

update-Keeps :
    (id : String) (from : LiveSessionStatus) (change : Session → Session)
    → ((r : Session) → r.status ≡ from → WellFormed r → WellFormed (change r))
    → Guarantee Keeps Always (update_session id from change)
unfolding update_session
update-Keeps id from change h = record { at = λ s _ inv. go s inv (s.sessions id) refl }
  where
    go :
        (s : LiveDb)
        → AllWellFormed s
        → (o : Option Session) → s.sessions id ≡ o
        → AllWellFormed (cas_session id from change s o).1
    go s inv none e = inv
    go s inv (some r) e = elim (Bool-cases (r.status == from)) [
      | inl same ↦
          rw same
            (write-Keeps id (change r) s (h r (eq_of_test r.status from same) (inv id r e)) inv)
      | inr other ↦ rw other inv
    ]

log-Keeps : (row : SessionLog) → Guarantee Keeps Always (create_session_log row)
unfolding create_session_log
log-Keeps row = record { at = λ s _ inv. inv }

load-Keeps : (id : String) → Guarantee Keeps Always (load_session id)
unfolding load_session
load-Keeps id = record { at = λ s _ inv. inv }

then-Keeps :
    {A B : Type 0} (m : Exec LiveDb A) (f : A → Exec LiveDb B)
    → Guarantee Keeps Always m
    → ((a : A) → Guarantee Keeps Always (f a))
    → Guarantee Keeps Always (m >>= f)
then-Keeps m f g k = Guarantee-bind Keeps-order m f (λ s t r h. h) g k

allowed-ok : (b : Bool) {a : Unit {0}} → require b invalid_transition ≡ ok a → b ≡ true
allowed-ok true h = refl
allowed-ok false h = cc

-- A session that may still move has not ended.
not_ended :
    (from to : LiveSessionStatus)
    → can_transition_live_session from to ≡ true
    → (from == ended) ≡ false
unfolding can_transition_live_session
not_ended from to h = ground arith

module _ (between : LiveDb → LiveDb) (others : (s : LiveDb) → Keeps s (between s)) where
  wait-Keeps : Guarantee Keeps Always (wait between)
  unfolding wait
  wait-Keeps = record { at = λ s _ inv. others s inv }

  apply_transition-Keeps :
      (id : String) (to : LiveSessionStatus) (user_id : String) (mutate : Session → Session)
      → ((r : Session)
          → is_some r.ended_at ≡ false
          → WellFormed r
          → WellFormed (mutate (record r { status = to })))
      → Guarantee Keeps Always (apply_transition between id to user_id mutate)
  unfolding apply_transition
  apply_transition-Keeps id to user_id mutate h = then-Keeps _ _ (load-Keeps id) λ row.
      Guarantee-check Keeps-order
        (require (can_transition_live_session row.status to) invalid_transition) _
        λ _ allowed. then-Keeps _ _ (Guarantee-gets Keeps-order _) λ now.
          then-Keeps _ _ wait-Keeps λ _.
            then-Keeps _ _
              (Guarantee-transaction Keeps-order _ (
                then-Keeps _ _
                  (update-Keeps id row.status _ λ r st w.
                    h r
                      (w.1
                        ∙ ap (λ x. x == ended) st
                        ∙ not_ended row.status to (allowed-ok _ allowed))
                      w)
                  λ _. log-Keeps _))
              λ _. then-Keeps _ _ wait-Keeps λ _. load-Keeps id

create-Keeps :
    (new_id : String) (emergency : Bool) (scheduled_at : Option ℕ)
    → Guarantee Keeps Always (create_session new_id emergency scheduled_at)
unfolding create_session
create-Keeps new_id emergency scheduled_at = Guarantee-check Keeps-order _ _ λ _ first.
    Guarantee-check Keeps-order _ _ λ _ second. record {
      at = λ s _.
          write-Keeps new_id (new_session emergency scheduled_at) s
            (fresh emergency scheduled_at first second);
    }
  where
    fresh :
        (e : Bool) (o : Option ℕ)
        → {a b : Unit {0}} → require (not (e && is_some o)) validation_failed ≡ ok a
        → require (not (not e && not (is_some o))) validation_failed ≡ ok b
        → WellFormed (new_session e o)
    fresh true none first second = (refl, refl)
    fresh false (some at) first second = (refl, refl)
    fresh true (some at) first second = cc
    fresh false none first second = cc

pub data LiveRequest : Type 0 where
  create : String → Bool → Option ℕ → LiveRequest
  prepare : String → String → String → String → LiveRequest
  start : String → String → String → ℕ → LiveRequest
  interrupt resume cancel : String → String → LiveRequest
  end_request : String → String → ℕ → LiveRequest

unfoldable pub serve : (LiveDb → LiveDb) → LiveRequest → LiveDb → LiveDb
serve between (create id emergency at) s = (create_session id emergency at s).1
serve between (prepare url key id u) s = (Sessions.prepare between url key id u s).1
serve between (start url id u now) s = (Sessions.start between url id u now s).1
serve between (interrupt id u) s = (Sessions.interrupt between id u s).1
serve between (resume id u) s = (Sessions.resume between id u s).1
serve between (cancel id u) s = (Sessions.cancel_session between id u s).1
serve between (end_request id u now) s = (Sessions.end_session between id u now s).1

running :
    (r : Session) (to : LiveSessionStatus)
    → (to == ended) ≡ false
    → is_some r.ended_at ≡ false
    → WellFormed r
    → WellFormed (record r { status = to })
running r to n e w = (w.0, e ∙ sym n)

-- Every request, whatever it answers and whatever well-behaved requests run while it waits, keeps
-- this: a session is an emergency exactly if it has no scheduled time, and has an end time exactly
-- if it has ended.
pub serve-WellFormed :
    (between : LiveDb → LiveDb) (request : LiveRequest) (s : LiveDb)
    → ((t : LiveDb) → AllWellFormed t → AllWellFormed (between t))
    → AllWellFormed s
    → AllWellFormed (serve between request s)
unfolding serve Sessions.prepare Sessions.start Sessions.interrupt Sessions.resume
    Sessions.cancel_session Sessions.end_session
serve-WellFormed between (create id emergency at) s o inv =
    (create-Keeps id emergency at).at s tt inv
serve-WellFormed between (prepare url key id u) s o inv =
    (apply_transition-Keeps between o id preparing u (Sessions.prepare_data url key)
        λ r e w. running r preparing refl e w).at
      s tt inv
serve-WellFormed between (start url id u now) s o inv =
    (apply_transition-Keeps between o id live u (Sessions.start_data url now)
        λ r e w. running r live refl e w).at
      s tt inv
serve-WellFormed between (interrupt id u) s o inv =
    (apply_transition-Keeps between o id interrupted u Sessions.no_data
        λ r e w. running r interrupted refl e w).at
      s tt inv
serve-WellFormed between (resume id u) s o inv =
    (apply_transition-Keeps between o id live u Sessions.no_data
        λ r e w. running r live refl e w).at
      s tt inv
serve-WellFormed between (cancel id u) s o inv =
    (apply_transition-Keeps between o id canceled u Sessions.no_data
        λ r e w. running r canceled refl e w).at
      s tt inv
serve-WellFormed between (end_request id u now) s o inv =
    (apply_transition-Keeps between o id ended u (Sessions.end_data now) λ r e w. (w.0, refl)).at s
      tt inv
