-- ===== src/Api/RateLimits/TokenBucket.antt =====
-- services/api/src/live/chat-rate-limiter.ts, `TokenBucket`; `TelemetryTokenBucket` in
-- services/api/src/telemetry/telemetry-rate-limiter.ts is the same code. Times are milliseconds
-- as `Date.now()` gives them, and a clock may run backwards. `capacity` and `refillMs`, which never
-- change, are parameters.
use gachinol.Prelude.{ℕ, ◌+◌, ◌-◌, ◌*◌, ◌/◌, min, Bool, true, false, leb, if◌then◌else◌}

pub record TokenBucket : Type 0 where
  pub tokens : ℕ
  pub last_refill_ms : ℕ

abbrev pub take_token : TokenBucket → Bool × TokenBucket
take_token b = if leb 1 b.tokens then (true, record b { tokens = b.tokens - 1 }) else (false, b)

module _ (capacity refill_ms : ℕ) where
  abbrev pub new_bucket : ℕ → TokenBucket
  new_bucket now = record { tokens = capacity; last_refill_ms = now }

  abbrev pub gain : ℕ → TokenBucket → TokenBucket
  gain gained b = if leb gained 0 then b else record {
    tokens = min capacity (b.tokens + gained);
    last_refill_ms = b.last_refill_ms + gained * refill_ms;
  }

  unfoldable pub refill : ℕ → TokenBucket → TokenBucket
  refill now b =
      if leb refill_ms 0
      then b
      else if leb now b.last_refill_ms
      then b
      else gain ((now - b.last_refill_ms) / refill_ms) b

  unfoldable pub take : ℕ → TokenBucket → Bool × TokenBucket
  unfolding refill
  take now b = take_token (refill now b)

  -- `Math.max(0, this.refillMs - elapsed)`, where a clock that ran backwards makes `elapsed` negative.
  abbrev pub wait : ℕ → TokenBucket → ℕ
  wait now b =
      if leb b.last_refill_ms now
      then refill_ms - (now - b.last_refill_ms)
      else refill_ms + (b.last_refill_ms - now)

  unfoldable pub retry_after_ms : ℕ → TokenBucket → ℕ × TokenBucket
  unfolding refill
  retry_after_ms now b = let b' = refill now b in (if leb 1 b'.tokens then 0 else wait now b', b')
