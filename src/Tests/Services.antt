-- ===== src/Tests/Services.antt =====
-- The theorems on the rate limiters, the arbiter and live sessions.
use gachinol.Prelude.{
  ◌+◌, ◌/◌, ◌≤◌, ◌≡◌, refl, ◌↔◌, subst, some-injective, inl, inr, Bool-cases, true, false, none,
  some, List, [], ◌∷◌, ◌==◌, string_eq, length, if◌then◌else◌, arith,
}
use gachinol.Shared.LiveSessionStatus.{preparing, live}
use gachinol.Shared.StationStatus.{operating, dormant}
use gachinol.Shared.RecommendationStatus.{pending_review}
use gachinol.Api.Exec.{ok}
use gachinol.Api.Users.{center_operator}
use gachinol.Api.Stations.{
  StationDb, Marked, AllMarked, transition_station, transition_station-Marked,
}
use gachinol.Api.Recommendations.Workflow.{Recommendation, RecommendationDb}
use gachinol.Api.Recommendations.WorkflowLaws.{
  approve, AllOnMap, after_request, after_request-AllOnMap,
}
use gachinol.Api.RateLimits.TokenBucket.{take}
use gachinol.Api.RateLimits.Chat.{Buckets}
use gachinol.Api.RateLimits.ChatLaws.{Message, passed, duration, passed-at_most}
use gachinol.Api.RateLimits.Telemetry
use gachinol.Api.RateLimits.Telemetry.{Entry, Limiter, get_entry}
use gachinol.Api.RateLimits.TelemetryLaws.{check-at_most, check-own_bucket}
use gachinol.Api.Arbiter.Policy.{
  DcpArbiterState, dcp_busy, dcp_imminent, dcp_unreachable, FailMode, HoldPolicy, decide_hold,
}
use gachinol.Api.Arbiter.PolicyLaws.{Imminent, Runs, PausesFor, decide_hold_iff}
use gachinol.Api.Arbiter.Gate.{
  works, refused, Event, refresh, fetched, gated, step, steps, on_module_init,
}
use gachinol.Api.Arbiter.Startup.{steps-stay_paused}
use gachinol.Api.Arbiter.GateLaws.{Faithful, steps-Faithful, steps-follow_policy}
use gachinol.Api.Live.Sessions.{Session, LiveDb, resume}
use gachinol.Api.Live.SessionLaws.{WellFormed, AllWellFormed, start, serve, serve-WellFormed}
use gachinol.Api.Live.Resume.{resume-from_preparing}

abbrev nobody : Buckets
nobody k = none

abbrev messages : List Message
messages =
    record { key = "a"; gap = 0 }
    ∷ record { key = "b"; gap = 10 }
    ∷ record { key = "a"; gap = 10 }
    ∷ []

passed-at_most_example : passed 1 1000 "a" 5 nobody messages ≤ 1 + duration 1 1000 messages / 1000
passed-at_most_example = passed-at_most 1 1000 5 "a" messages nobody (omega arith) refl

abbrev one_seen : Limiter
one_seen = record {
  buckets =
      (
        "10.0.0.1",
        record { bucket = record { tokens = 3; last_refill_ms = 100 }; last_seen_ms = 100 },
      )
      ∷ [];
  last_sweep_ms = 0;
}

check-at_most_example :
    length (Telemetry.check 30 2000 1 600000 60000 "10.0.0.2" 200 one_seen).1.buckets ≤ 1
check-at_most_example = check-at_most 30 2000 1 600000 60000 "10.0.0.2" 200 one_seen (omega arith)

abbrev seen_entry : Entry
seen_entry = record { bucket = record { tokens = 3; last_refill_ms = 100 }; last_seen_ms = 100 }

check-own_bucket_example :
    ((Telemetry.check 30 2000 1 600000 60000 "10.0.0.1" 70000 one_seen).0.allowed
      ≡ (take 30 2000 70000 seen_entry.bucket).0)
    × ((b : Entry) × (get_entry "10.0.0.1"
            (Telemetry.check 30 2000 1 600000 60000 "10.0.0.1" 70000 one_seen).1.buckets
          ≡ some b)
        × (b.last_seen_ms ≡ 70000))
check-own_bucket_example =
    check-own_bucket 30 2000 1 600000 60000 "10.0.0.1" 70000 seen_entry one_seen refl (omega arith)

abbrev default_policy : HoldPolicy
default_policy = record { hold_on_imminent = true; fail_mode = FailMode.hold }

abbrev busy_state : DcpArbiterState
busy_state = record { busy = true; stage = some "encoding"; queued = 0 }

decide_hold_iff_example :
    (PausesFor dcp_busy (some busy_state) default_policy ↔ (busy_state.busy ≡ true))
    × (PausesFor dcp_imminent (some busy_state) default_policy
        ↔ ((busy_state.busy ≡ false) × Imminent default_policy busy_state))
    × (Runs (some busy_state) default_policy
        ↔ ((busy_state.busy ≡ false) × ¬ Imminent default_policy busy_state))
    × (PausesFor dcp_unreachable none default_policy ↔ (default_policy.fail_mode ≡ FailMode.hold))
    × (Runs none default_policy ↔ (default_policy.fail_mode ≡ FailMode.run))
decide_hold_iff_example = decide_hold_iff default_policy busy_state

abbrev morning : List Event
morning =
    fetched (some busy_state) ∷ refresh ∷ gated works ∷ fetched (some busy_state) ∷ gated works ∷ []

steps-follow_policy_example :
    (steps default_policy morning (on_module_init false true)).paused
    ≡ (decide_hold
        (steps default_policy morning (on_module_init false true)).dcp
        default_policy).hold
unfolding steps step on_module_init decide_hold
steps-follow_policy_example =
    steps-follow_policy default_policy false morning (tt, (tt, (refl, (tt, (refl, tt))))) refl

steps-Faithful_example :
    Faithful (
      steps default_policy (fetched none ∷ gated refused ∷ refresh ∷ []) (on_module_init true true))
steps-Faithful_example =
    steps-Faithful default_policy true (fetched none ∷ gated refused ∷ refresh ∷ [])
      (tt, (tt, (tt, tt)))

abbrev idle_state : DcpArbiterState
idle_state = record { busy = false; stage = none; queued = 0 }

steps-stay_paused_example :
    (steps default_policy
      (fetched (some idle_state) ∷ gated works ∷ refresh ∷ [])
      (on_module_init true false)).paused
    ≡ true
unfolding decide_hold
steps-stay_paused_example =
    steps-stay_paused default_policy (fetched (some idle_state) ∷ gated works ∷ refresh ∷ [])
      (refl, (tt, (tt, tt)))

abbrev studio : Session
studio = record {
  emergency = true;
  status = preparing;
  scheduled_at = none;
  started_at = none;
  ended_at = none;
  rtmp_ingest_url = none;
  stream_key_ref = none;
  hls_playback_url = none;
}

abbrev on_call : LiveDb
on_call = record { sessions = λ k. if "s1" == k then some studio else none; logs = []; clock = 3 }

on_call-WellFormed : AllWellFormed on_call
on_call-WellFormed id r found = elim (Bool-cases ("s1" == id)) [
  | inl same ↦ subst WellFormed (some-injective _ _ (rw same at found)) (refl, refl)
  | inr other ↦ cc (rw other at found)
]

serve-WellFormed_example :
    AllWellFormed (serve (λ t. t) (start "https://hls" "s1" "mina" 4) on_call)
serve-WellFormed_example =
    serve-WellFormed (λ t. t) (start "https://hls" "s1" "mina" 4) on_call (λ t h. h)
      on_call-WellFormed

resume-from_preparing_example :
    (resume (λ t. t) "s1" "mina" on_call).0 ≡ ok (record studio { status = live })
resume-from_preparing_example = resume-from_preparing on_call "s1" "mina" studio refl refl

abbrev coast : StationDb
coast = record {
  stations = λ k.
      if "aewol" == k then some (record { status = dormant; dormant_since = some 2 }) else none;
  logs = [];
  clock = 5;
}

coast-Marked : AllMarked coast
coast-Marked id r found = elim (Bool-cases ("aewol" == id)) [
  | inl same ↦ subst Marked (some-injective _ _ (rw same at found)) refl
  | inr other ↦ cc (rw other at found)
]

transition_station-Marked_example :
    AllMarked (transition_station (λ t. t) "aewol" operating "mina" none coast).1
transition_station-Marked_example =
    transition_station-Marked (λ t. t) "aewol" operating "mina" none coast (λ t h. h) coast-Marked

abbrev weekly : Recommendation
weekly = record {
  id = "w1";
  columns = record {
    status = pending_review;
    generation = 1;
    approved_by_user_id = none;
    approved_at = none;
  };
}

abbrev board : RecommendationDb
board = record { rows = λ k. if "w1" == k then some weekly.columns else none; logs = []; clock = 5 }

after_request-AllOnMap_example :
    AllOnMap
      (after_request (λ t. t) (approve weekly (record { id = "op"; role = center_operator })) board)
after_request-AllOnMap_example =
    after_request-AllOnMap (λ t. t) (approve weekly (record { id = "op"; role = center_operator }))
      board (λ t h. h) tt
