-- ===== src/Api/RateLimits/Chat.antt =====
-- services/api/src/live/chat-rate-limiter.ts, `ChatRateLimiter`: a bucket for each socket key.
use gachinol.Prelude.{
  ℕ, String, Bool, true, false, Option, none, some, ◌==◌, string_eq, if◌then◌else◌,
}
use gachinol.Api.RateLimits.TokenBucket.{TokenBucket, new_bucket, take, retry_after_ms}

abbrev pub Buckets : Type 0
Buckets = String → Option TokenBucket

abbrev pub set_bucket : String → Option TokenBucket → Buckets → Buckets
set_bucket key b buckets k = if key == k then b else buckets k

pub record Verdict : Type 0 where
  pub allowed : Bool
  pub retry_after_ms : ℕ

module _ (capacity refill_ms : ℕ) where
  abbrev pub bucket_or_new : ℕ → Option TokenBucket → TokenBucket
  bucket_or_new now none = new_bucket capacity refill_ms now
  bucket_or_new now (some b) = b

  -- The answer of `check`, and the bucket it leaves behind.
  abbrev pub answer : ℕ → Bool × TokenBucket → Verdict × TokenBucket
  answer now (true, b) = (record { allowed = true; retry_after_ms = 0 }, b)
  answer now (false, b) =
      let (wait, b') = retry_after_ms capacity refill_ms now b in
      (record { allowed = false; retry_after_ms = wait }, b')

  unfoldable pub check_bucket : ℕ → Option TokenBucket → Verdict × TokenBucket
  check_bucket now found = answer now (take capacity refill_ms now (bucket_or_new now found))

  unfoldable pub check : String → ℕ → Buckets → Verdict × Buckets
  unfolding check_bucket
  check key now buckets =
      let (verdict, b) = check_bucket now (buckets key) in
      (verdict, set_bucket key (some b) buckets)

unfoldable pub drop : String → Buckets → Buckets
drop key buckets = set_bucket key none buckets
