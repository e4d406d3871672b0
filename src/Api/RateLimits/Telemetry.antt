-- ===== src/Api/RateLimits/Telemetry.antt =====
-- services/api/src/telemetry/telemetry-rate-limiter.ts, `TelemetryIpRateLimiter`. The registry, a
-- `Map`, is an association list in insertion order. The header names of `extractClientIp` are read
-- by Express, which is not modelled.
use gachinol.Prelude.{
  ℕ, ◌+◌, String, Bool, true, false, Option, none, some, List, [], ◌∷◌, ◌==◌, string_eq, ltb, leb,
  length, if◌then◌else◌,
}
use gachinol.Api.RateLimits.TokenBucket.{TokenBucket, new_bucket, take, retry_after_ms}
use gachinol.Api.RateLimits.Chat.{Verdict}

pub record Entry : Type 0 where
  pub bucket : TokenBucket
  pub last_seen_ms : ℕ

abbrev pub Registry : Type 0
Registry = List (String × Entry)

abbrev pub get_entry : String → Registry → Option Entry
get_entry key [] = none
get_entry key ((k, e) ∷ rest) = if k == key then some e else get_entry key rest

-- `Map.set`: a key that is there keeps its place.
abbrev pub set_entry : String → Entry → Registry → Registry
set_entry key e [] = (key, e) ∷ []
set_entry key e ((k, f) ∷ rest) = if k == key then (k, e) ∷ rest else (k, f) ∷ set_entry key e rest

pub record Limiter : Type 0 where
  pub buckets : Registry
  pub last_sweep_ms : ℕ

-- `now - t < d`, for a clock that may run backwards.
abbrev pub within : ℕ → ℕ → ℕ → Bool
within now t d = ltb now (t + d)

-- The loop of `sweepIfDue`: entries idle for more than the TTL are deleted.
abbrev pub sweep : ℕ → ℕ → Registry → Registry
sweep idle_ttl_ms now [] = []
sweep idle_ttl_ms now ((k, e) ∷ rest) =
    if ltb (e.last_seen_ms + idle_ttl_ms) now
    then sweep idle_ttl_ms now rest
    else (k, e) ∷ sweep idle_ttl_ms now rest

unfoldable pub sweep_if_due : ℕ → ℕ → ℕ → Limiter → Limiter
sweep_if_due idle_ttl_ms sweep_interval_ms now l =
    if within now l.last_sweep_ms sweep_interval_ms
    then l
    else record { buckets = sweep idle_ttl_ms now l.buckets; last_sweep_ms = now }

module _ (capacity refill_ms max_keys idle_ttl_ms sweep_interval_ms : ℕ) where
  abbrev pub verdict_of : ℕ → Bool × TokenBucket → Verdict × TokenBucket
  verdict_of now (true, b) = (record { allowed = true; retry_after_ms = 0 }, b)
  verdict_of now (false, b) =
      let (wait, b') = retry_after_ms capacity refill_ms now b in
      (record { allowed = false; retry_after_ms = wait }, b')

  -- The rest of `check`, once the entry is there.
  abbrev pub use_entry : String → ℕ → TokenBucket → Limiter → Verdict × Limiter
  use_entry key now b l =
      let (verdict, b') = verdict_of now (take capacity refill_ms now b) in
      (
        verdict,
        record l { buckets = set_entry key (record { bucket = b'; last_seen_ms = now }) l.buckets },
      )

  abbrev pub check_entry : String → ℕ → Option Entry → Limiter → Verdict × Limiter
  check_entry key now (some e) l = use_entry key now e.bucket l
  check_entry key now none l =
      if leb max_keys (length l.buckets)
      then (record { allowed = false; retry_after_ms = refill_ms }, l)
      else use_entry key now (new_bucket capacity refill_ms now) l

  unfoldable pub check : String → ℕ → Limiter → Verdict × Limiter
  unfolding sweep_if_due
  check key now l =
      let l' = sweep_if_due idle_ttl_ms sweep_interval_ms now l in
      check_entry key now (get_entry key l'.buckets) l'
