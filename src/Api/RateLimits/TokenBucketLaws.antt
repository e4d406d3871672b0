-- ===== src/Api/RateLimits/TokenBucketLaws.antt =====
-- A token bucket grants no more than its capacity and one for every refill period.
use gachinol.Prelude.{
  ℕ, ◌+◌, ◌-◌, ◌*◌, ◌/◌, ◌≤◌, ◌<◌, leb→le, ◌≡◌, Bool, true, false, leb, inl, inr, Bool-cases, arith,
}
use native.Mathlib.Nat.{div-mul-le_self, add-mul, le-div_iff_mul-le}
use gachinol.Api.RateLimits.TokenBucket.{
  TokenBucket, new_bucket, gain, refill, take_token, take, retry_after_ms,
}

-- A bucket made at `start` that has granted `granted` tokens, up to the time `latest`.
pub record Accounted (capacity refill_ms start granted latest : ℕ) (b : TokenBucket) : Type 0 where
  pub periods : ℕ
  pub last : b.last_refill_ms ≡ start + periods * refill_ms
  pub in_time : b.last_refill_ms ≤ latest
  pub budget : granted + b.tokens ≤ capacity + periods
  pub capped : b.tokens ≤ capacity

in_elapsed :
    (period now last : ℕ) → leb now last ≡ false → last + (now - last) / period * period ≤ now
in_elapsed period now last h = let whole = div-mul-le_self (now - last) period in ground arith

abbrev pub count : Bool → ℕ
count true = 1
count false = 0

module _ (capacity refill_ms start granted latest now : ℕ) (later : latest ≤ now) where
  abbrev Then : TokenBucket → Type 0
  Then b = Accounted capacity refill_ms start granted now b

  wait-Accounted : (b : TokenBucket) → Accounted capacity refill_ms start granted latest b → Then b
  wait-Accounted b a = record {
    periods = a.periods;
    last = a.last;
    in_time = omega arith;
    budget = a.budget;
    capped = a.capped;
  }

  gain-Accounted :
      (b : TokenBucket) (gained : ℕ)
      → b.last_refill_ms + gained * refill_ms ≤ now
      → Accounted capacity refill_ms start granted latest b
      → Then (gain capacity refill_ms gained b)
  gain-Accounted b gained h a = elim (Bool-cases (leb gained 0)) [
    | inl nothing ↦ rw nothing (wait-Accounted b a)
    | inr some_gained ↦ rw some_gained (record {
      periods = a.periods + gained;
      last = let split = add-mul a.periods gained refill_ms in omega arith;
      in_time = h;
      budget = omega arith;
      capped = omega arith;
    })
  ]

  refill-Accounted :
      (b : TokenBucket)
      → Accounted capacity refill_ms start granted latest b
      → Then (refill capacity refill_ms now b)
  unfolding refill
  refill-Accounted b a = elim (Bool-cases (leb refill_ms 0)) [
    | inl never ↦ rw never (wait-Accounted b a)
    | inr positive ↦ elim (Bool-cases (leb now b.last_refill_ms)) [
      | inl early ↦ rw (positive, early) (wait-Accounted b a)
      | inr elapsed ↦
          rw (positive, elapsed)
            (gain-Accounted b _ (in_elapsed refill_ms now b.last_refill_ms elapsed) a)
    ]
  ]

  take_token-Accounted :
      (b : TokenBucket)
      → Then b
      → Accounted capacity refill_ms start (granted + count (take_token b).0) now (take_token b).1
  take_token-Accounted b a = elim (Bool-cases (leb 1 b.tokens)) [
    | inl enough ↦ rw enough (record {
      periods = a.periods;
      last = a.last;
      in_time = a.in_time;
      budget = let has = leb→le 1 b.tokens enough in omega arith;
      capped = omega arith;
    })
    | inr empty ↦ rw empty (record {
      periods = a.periods;
      last = a.last;
      in_time = a.in_time;
      budget = omega arith;
      capped = a.capped;
    })
  ]

  pub take-Accounted :
      (b : TokenBucket)
      → Accounted capacity refill_ms start granted latest b
      → Accounted capacity refill_ms start
          (granted + count (take capacity refill_ms now b).0)
          now
          (take capacity refill_ms now b).1
  unfolding take
  take-Accounted b a = take_token-Accounted _ (refill-Accounted b a)

  pub retry_after-Accounted :
      (b : TokenBucket)
      → Accounted capacity refill_ms start granted latest b
      → Then (retry_after_ms capacity refill_ms now b).1
  unfolding retry_after_ms
  retry_after-Accounted b a = refill-Accounted b a

pub new_bucket-Accounted :
    (capacity refill_ms now : ℕ)
    → Accounted capacity refill_ms now 0 now (new_bucket capacity refill_ms now)
new_bucket-Accounted capacity refill_ms now = record {
  periods = 0;
  last = omega arith;
  in_time = omega arith;
  budget = omega arith;
  capped = omega arith;
}

-- What an accounted bucket has granted since some time before it was made.
pub Accounted-bound :
    (capacity refill_ms since start granted latest : ℕ) (b : TokenBucket)
    → 0 < refill_ms
    → since ≤ start
    → Accounted capacity refill_ms start granted latest b
    → granted ≤ capacity + (latest - since) / refill_ms
Accounted-bound capacity refill_ms since start granted latest b positive begun a =
    let whole =
      (le-div_iff_mul-le {x = a.periods} {y = latest - since} positive).1
        (let last = a.last in let in_time = a.in_time in omega arith) in
    let budget = a.budget in omega arith
