-- ===== src/Api/RateLimits/ChatLaws.antt =====
-- No socket gets more messages through than its bucket allows, whatever other sockets send.
use gachinol.Prelude.{
  ℕ, ◌+◌, ◌-◌, ◌/◌, ◌≤◌, ◌<◌, ◌≡◌, refl, sym, subst, String, Bool, true, false, Option, none, some,
  List, [], ◌∷◌, ◌==◌, string_eq, if◌then◌else◌, Bool-cases, inl, inr, eq_of_test, arith,
}
use gachinol.Api.RateLimits.TokenBucket.{TokenBucket}
use gachinol.Api.RateLimits.TokenBucketLaws.{
  Accounted, count, take-Accounted, retry_after-Accounted, new_bucket-Accounted, Accounted-bound,
}
use gachinol.Api.RateLimits.Chat.{Buckets, set_bucket, bucket_or_new, answer, check_bucket, check}

-- A message of a socket, and the time since the one before of any socket.
pub record Message : Type 0 where
  pub key : String
  pub gap : ℕ

plus_nothing : (a : ℕ) → a + 0 ≡ a
plus_nothing a = omega arith

regroup : (a b c : ℕ) → a + (b + c) ≡ a + b + c
regroup a b c = omega arith

module _ (capacity refill_ms : ℕ) where
  -- How many messages of `key` pass, of those sent after `now`.
  abbrev pub passed : String → ℕ → Buckets → List Message → ℕ
  passed key now buckets [] = 0
  passed key now buckets (m ∷ rest) =
      let (verdict, buckets') = check capacity refill_ms m.key (now + m.gap) buckets in
      (if m.key == key then count verdict.allowed else 0) + passed key (now + m.gap) buckets' rest

  answer-Accounted :
      (start granted now : ℕ) (o : Bool × TokenBucket)
      → Accounted capacity refill_ms start (granted + count o.0) now o.1
      → Accounted capacity refill_ms start
          (granted + count (answer capacity refill_ms now o).0.allowed)
          now
          (answer capacity refill_ms now o).1
  answer-Accounted start granted now (true, b) a = a
  answer-Accounted start granted now (false, b) a =
      retry_after-Accounted capacity refill_ms start (granted + 0) now now (omega arith) b a

  -- The account of a key since `start`; its bucket, if it has one, was made then or later.
  abbrev pub Tracked : ℕ → ℕ → ℕ → Option TokenBucket → Type 0
  Tracked start granted latest none = (granted ≡ 0) × (start ≤ latest)
  Tracked start granted latest (some b) =
      (made : ℕ) × (start ≤ made) × Accounted capacity refill_ms made granted latest b

  found_or_new-Accounted :
      (start granted latest now : ℕ) (o : Option TokenBucket)
      → latest ≤ now
      → Tracked start granted latest o
      → (made : ℕ) × (start ≤ made)
        × (latest' : ℕ) × (latest' ≤ now)
        × Accounted capacity refill_ms made granted latest' (bucket_or_new capacity refill_ms now o)
  found_or_new-Accounted start granted latest now none later (fresh, begun) =
      (now, omega arith, now, omega arith, rw fresh (new_bucket-Accounted capacity refill_ms now))
  found_or_new-Accounted start granted latest now (some b) later (made, begun, a) =
      (made, begun, latest, later, a)

  check_bucket-Tracked :
      (start granted latest now : ℕ) (o : Option TokenBucket)
      → latest ≤ now
      → Tracked start granted latest o
      → Tracked start
          (granted + count (check_bucket capacity refill_ms now o).0.allowed)
          now
          (some (check_bucket capacity refill_ms now o).1)
  unfolding check_bucket
  check_bucket-Tracked start granted latest now o later t =
      let (made, begun, latest', in_time, a) =
        found_or_new-Accounted start granted latest now o later t in
      (
        made,
        begun,
        answer-Accounted made granted now _
            (take-Accounted capacity refill_ms made granted latest' now in_time _ a),
      )

  Tracked-later :
      (start granted latest now : ℕ) (o : Option TokenBucket)
      → latest ≤ now
      → Tracked start granted latest o
      → Tracked start granted now o
  Tracked-later start granted latest now none later t = (t.0, omega arith)
  Tracked-later start granted latest now (some b) later (made, begun, a) = (
    made,
    begun,
    record {
      periods = a.periods;
      last = a.last;
      in_time = omega arith;
      budget = a.budget;
      capped = a.capped;
    },
  )

  Tracked-bound :
      (start granted latest : ℕ) (o : Option TokenBucket)
      → 0 < refill_ms
      → Tracked start granted latest o
      → granted ≤ capacity + (latest - start) / refill_ms
  Tracked-bound start granted latest none positive t = omega arith
  Tracked-bound start granted latest (some b) positive (made, begun, a) =
      Accounted-bound capacity refill_ms start made granted latest b positive begun a

  abbrev pub duration : List Message → ℕ
  duration [] = 0
  duration (m ∷ rest) = m.gap + duration rest

  set_bucket-Tracked :
      (key other : String) (start granted latest : ℕ) (b : Option TokenBucket) (buckets : Buckets)
      → (other == key) ≡ false
      → Tracked start granted latest (buckets key)
      → Tracked start granted latest (set_bucket other b buckets key)
  set_bucket-Tracked key other start granted latest b buckets differs t = rw differs t

  passed-bound :
      (key : String) (messages : List Message) (start granted now : ℕ) (buckets : Buckets)
      → 0 < refill_ms
      → Tracked start granted now (buckets key)
      → granted + passed key now buckets messages
        ≤ capacity + (now + duration messages - start) / refill_ms
  unfolding check
  passed-bound key [] start granted now buckets positive t =
      let bound = Tracked-bound start granted now _ positive t in
      rw (plus_nothing now) (omega arith)
  passed-bound key (m ∷ rest) start granted now buckets positive t =
      elim (Bool-cases (m.key == key)) [
        | inl same ↦
            let this = eq_of_test m.key key same in
            let verdict = check_bucket capacity refill_ms (now + m.gap) (buckets m.key) in
            let next = set_bucket m.key (some verdict.1) buckets in
            let now_tracked =
              check_bucket-Tracked start granted now (now + m.gap) (buckets m.key) (omega arith)
                (subst (λ k. Tracked start granted now (buckets k)) (sym this) t) in
            let bound =
              passed-bound key rest start (granted + count verdict.0.allowed) (now + m.gap) next
                positive (rw same now_tracked) in
            rw (same, regroup now m.gap (duration rest)) (omega arith)
        | inr other ↦
            let next =
              set_bucket m.key
                (some (check_bucket capacity refill_ms (now + m.gap) (buckets m.key)).1) buckets in
            let bound = passed-bound key rest start granted (now + m.gap) next positive (
              rw other
                (Tracked-later start granted now (now + m.gap) (buckets key) (omega arith) t)) in
            rw (other, regroup now m.gap (duration rest)) (omega arith)
      ]

cancel_start : (now d : ℕ) → now + d - now ≡ d
cancel_start now d = omega arith

-- Of the messages that a new socket sends, at most as many pass as its bucket holds and one for
-- each refill period that has gone by, whatever the other sockets send in between. The refill
-- period is not zero.
pub passed-at_most :
    (capacity refill_ms now : ℕ) (key : String) (messages : List Message) (buckets : Buckets)
    → 0 < refill_ms
    → buckets key ≡ none
    → passed capacity refill_ms key now buckets messages
      ≤ capacity + duration capacity refill_ms messages / refill_ms
passed-at_most capacity refill_ms now key messages buckets positive fresh =
    let bound =
      passed-bound capacity refill_ms key messages now 0 now buckets positive
        (rw fresh (refl, omega arith)) in
    let length_of_run = cancel_start now (duration capacity refill_ms messages) in
    rw⁻¹ length_of_run (omega arith)
