-- ===== src/Api/Live/Sessions.antt =====
-- services/api/src/live/live-sessions.service.ts: `LiveSessionsService`, its `create`, the lifecycle
-- and the public view. Addresses that the configuration gives are parameters; the broadcast after
-- a transition goes to sockets and is left out. `between` is what other requests commit while a
-- method waits.
use gachinol.Prelude.{
  ℕ, String, Bool, true, false, not, ◌&&◌, Option, none, some, List, [], ◌∷◌, ◌++◌, ◌==◌, string_eq,
  includes, if◌then◌else◌,
}
use gachinol.Shared.LiveSessionStatus.{
  LiveSessionStatus, live_session_status_eq, scheduled, preparing, live, interrupted, ended,
  canceled, can_transition_live_session,
}
use gachinol.Api.Exec.{
  Result, ok, err, Exec, lift, gets, transaction, or_404, require, validation_failed,
  invalid_transition, conflict, ◌>>=◌, ◌>>◌,
}

-- A row of `live_sessions`, but for its key: the columns that the lifecycle reads and writes.
pub record Session : Type 0 where
  pub emergency : Bool  -- `type === ProgramCategory.Emergency`
  pub status : LiveSessionStatus
  pub scheduled_at : Option ℕ
  pub started_at : Option ℕ
  pub ended_at : Option ℕ
  pub rtmp_ingest_url : Option String
  pub stream_key_ref : Option String
  pub hls_playback_url : Option String

pub record SessionLog : Type 0 where
  pub entity_id : String
  pub from_status : LiveSessionStatus
  pub to_status : LiveSessionStatus
  pub actor_user_id : String
  pub at : ℕ

pub record LiveDb : Type 0 where
  pub sessions : String → Option Session
  pub logs : List SessionLog
  pub clock : ℕ

abbrev pub write_session : String → Session → LiveDb → LiveDb
write_session id row db = record db { sessions = λ k. if id == k then some row else db.sessions k }

-- packages/shared/src/live/live-session.ts
unfoldable pub initial_live_status : Bool → LiveSessionStatus
initial_live_status true = preparing
initial_live_status false = scheduled

abbrev pub is_some : Option ℕ → Bool
is_some none = false
is_some (some at) = true

abbrev pub new_session : Bool → Option ℕ → Session
unfolding initial_live_status
new_session emergency scheduled_at = record {
  emergency = emergency;
  status = initial_live_status emergency;
  scheduled_at = scheduled_at;
  started_at = none;
  ended_at = none;
  rtmp_ingest_url = none;
  stream_key_ref = none;
  hls_playback_url = none;
}

unfoldable pub create_session : String → Bool → Option ℕ → Exec LiveDb Session
unfolding initial_live_status
create_session new_id emergency scheduled_at = do
  lift (require (not (emergency && is_some scheduled_at)) validation_failed)
  lift (require (not (not emergency && not (is_some scheduled_at))) validation_failed)
  λ db. (
    ok (new_session emergency scheduled_at),
    write_session new_id (new_session emergency scheduled_at) db,
  )

unfoldable pub load_session : String → Exec LiveDb Session
load_session id db = (or_404 (db.sessions id), db)

abbrev pub cas_session :
    String
    → LiveSessionStatus
    → (Session → Session)
    → LiveDb
    → Option Session
    → Result (Unit {0}) × LiveDb
cas_session id from change db none = (err conflict, db)
cas_session id from change db (some r) =
    if r.status == from then (ok tt, write_session id (change r) db) else (err conflict, db)

-- The compare-and-set; a count of zero is a conflict.
unfoldable pub update_session :
    String → LiveSessionStatus → (Session → Session) → Exec LiveDb (Unit {0})
update_session id from change db = cas_session id from change db (db.sessions id)

unfoldable pub create_session_log : SessionLog → Exec LiveDb (Unit {0})
create_session_log row db = (ok tt, record db { logs = db.logs ++ row ∷ [] })

-- What the transitions set besides the status.
abbrev pub prepare_data : String → String → Session → Session
prepare_data rtmp_url stream_key_ref r = record r {
  rtmp_ingest_url = some rtmp_url;
  stream_key_ref = some stream_key_ref;
}

abbrev pub start_data : String → ℕ → Session → Session
start_data hls_url now r = record r { started_at = some now; hls_playback_url = some hls_url }

abbrev pub end_data : ℕ → Session → Session
end_data now r = record r { ended_at = some now }

abbrev pub no_data : Session → Session
no_data r = r

module _ (between : LiveDb → LiveDb) where
  unfoldable pub wait : Exec LiveDb (Unit {0})
  wait db = (ok tt, between db)

  unfoldable pub apply_transition :
      String → LiveSessionStatus → String → (Session → Session) → Exec LiveDb Session
  apply_transition id to user_id mutate = do
    row ← load_session id
    lift (require (can_transition_live_session row.status to) invalid_transition)
    now ← gets (λ db. db.clock)
    wait
    transaction (do
      update_session id row.status (λ r. mutate (record r { status = to }))
      create_session_log (record {
        entity_id = id;
        from_status = row.status;
        to_status = to;
        actor_user_id = user_id;
        at = now;
      }))
    wait
    load_session id

  unfoldable pub prepare : String → String → String → String → Exec LiveDb Session
  unfolding apply_transition
  prepare rtmp_url stream_key_ref id user_id =
      apply_transition id preparing user_id (prepare_data rtmp_url stream_key_ref)

  unfoldable pub start : String → String → String → ℕ → Exec LiveDb Session
  unfolding apply_transition
  start hls_url id user_id now = apply_transition id live user_id (start_data hls_url now)

  unfoldable pub interrupt : String → String → Exec LiveDb Session
  unfolding apply_transition
  interrupt id user_id = apply_transition id interrupted user_id no_data

  unfoldable pub resume : String → String → Exec LiveDb Session
  unfolding apply_transition
  resume id user_id = apply_transition id live user_id no_data

  unfoldable pub end_session : String → String → ℕ → Exec LiveDb Session
  unfolding apply_transition
  end_session id user_id now = apply_transition id ended user_id (end_data now)

  unfoldable pub cancel_session : String → String → Exec LiveDb Session
  unfolding apply_transition
  cancel_session id user_id = apply_transition id canceled user_id no_data

abbrev pub public_statuses : List LiveSessionStatus
public_statuses = scheduled ∷ preparing ∷ live ∷ interrupted ∷ []

unfoldable pub is_joinable : LiveSessionStatus → Bool
is_joinable status = includes public_statuses status
