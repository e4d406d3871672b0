-- ===== src/Api/Live/Resume.antt =====
-- `resume` of a session that has never been on the air.
use gachinol.Prelude.{◌≡◌, refl, String, true, some, string_eq, eq_self}
use gachinol.Shared.LiveSessionStatus.{
  LiveSessionStatus, live_session_status_eq, preparing, live, can_transition_live_session,
}
use gachinol.Api.Exec.{ok, ◌>>=◌}
use gachinol.Api.Live.Sessions.{
  Session, LiveDb, load_session, update_session, create_session_log, wait, apply_transition, resume,
}

may_go_live : (st : LiveSessionStatus) → st ≡ preparing → can_transition_live_session st live ≡ true
unfolding can_transition_live_session
may_go_live st h = rw h refl

-- With no other request in the way, `resume` puts a session that is preparing on the air and sets
-- nothing else: a start time, an ingest address or a playback address that it lacks stays unset.
pub resume-from_preparing :
    (s : LiveDb) (id user_id : String) (r : Session)
    → s.sessions id ≡ some r
    → r.status ≡ preparing
    → (resume (λ t. t) id user_id s).0 ≡ ok (record r { status = live })
unfolding resume apply_transition load_session update_session create_session_log wait ◌>>=◌
resume-from_preparing s id user_id r found st =
    rw (found, may_go_live r.status st, found, eq_self r.status, eq_self id) refl
