-- ===== src/Api/RateLimits/TelemetryLaws.antt =====
-- The registry of the telemetry rate limiter stays small, and forgets only who is idle.
use gachinol.Prelude.{
  ℕ, ◌+◌, ◌≤◌, ◌≡◌, refl, sym, ap, subst, some-injective, String, Bool, true, false, Option, none,
  some, [], ◌∷◌, ◌==◌, string_eq, ltb, leb, length, Bool-cases, inl, inr, eq_self, arith,
}
use mathlib.Core.Option.{none-ne-some}
use gachinol.Api.RateLimits.TokenBucket.{TokenBucket, take}
use gachinol.Api.RateLimits.Telemetry.{
  Entry, Registry, get_entry, set_entry, Limiter, sweep, sweep_if_due, verdict_of, check_entry,
  check, within,
}

length-set_known :
    (key : String) (e f : Entry) (r : Registry)
    → get_entry key r ≡ some f
    → length (set_entry key e r) ≡ length r
length-set_known key e f [] h = cc
length-set_known key e f ((k, g) ∷ rest) h = elim (Bool-cases (k == key)) [
  | inl same ↦ rw same refl
  | inr other ↦ rw (other, length-set_known key e f rest (rw other at h)) refl
]

length-set_new :
    (key : String) (e : Entry) (r : Registry)
    → get_entry key r ≡ none
    → length (set_entry key e r) ≡ length r + 1
length-set_new key e [] h = refl
length-set_new key e ((k, g) ∷ rest) h = elim (Bool-cases (k == key)) [
  | inl same ↦ elim (none-ne-some _ (sym (rw same at h))) [ ]
  | inr other ↦ rw (other, length-set_new key e rest (rw other at h)) (omega arith)
]

get-set : (key : String) (e : Entry) (r : Registry) → get_entry key (set_entry key e r) ≡ some e
get-set key e [] = rw (eq_self key) refl
get-set key e ((k, g) ∷ rest) = elim (Bool-cases (k == key)) [
  | inl same ↦ rw (same, same) refl
  | inr other ↦ rw (other, other) (get-set key e rest)
]

sweep-length : (ttl now : ℕ) (r : Registry) → length (sweep ttl now r) ≤ length r
sweep-length ttl now [] = omega arith
sweep-length ttl now ((k, e) ∷ rest) =
    let fewer = sweep-length ttl now rest in
    elim (Bool-cases (ltb (e.last_seen_ms + ttl) now)) [
      | inl idle ↦ rw idle (omega arith)
      | inr recent ↦ rw recent (omega arith)
    ]

sweep_if_due-length :
    (ttl interval now : ℕ) (l : Limiter)
    → length (sweep_if_due ttl interval now l).buckets ≤ length l.buckets
unfolding sweep_if_due
sweep_if_due-length ttl interval now l = elim (Bool-cases (within now l.last_sweep_ms interval)) [
  | inl soon ↦ rw soon (omega arith)
  | inr due ↦ rw due (sweep-length ttl now l.buckets)
]

not_idle : (a now : ℕ) → now ≤ a → ltb a now ≡ false
not_idle a now h = ground arith

-- A key that the sweep keeps: every entry under it was seen within the TTL.
get-sweep :
    (ttl now : ℕ) (key : String) (e : Entry) (r : Registry)
    → get_entry key r ≡ some e
    → now ≤ e.last_seen_ms + ttl
    → get_entry key (sweep ttl now r) ≡ some e
get-sweep ttl now key e [] h recent = h
get-sweep ttl now key e ((k, f) ∷ rest) h recent = elim (Bool-cases (k == key)) [
  | inl same ↦
      let this = some-injective _ _ (rw same at h) in
      rw
        (
          not_idle (f.last_seen_ms + ttl) now
              (subst (λ x. now ≤ x.last_seen_ms + ttl) (sym this) recent),
          same,
        )
        (ap some this)
  | inr other ↦ elim (Bool-cases (ltb (f.last_seen_ms + ttl) now)) [
    | inl idle ↦ rw idle (get-sweep ttl now key e rest (rw other at h) recent)
    | inr kept ↦ rw (kept, other) (get-sweep ttl now key e rest (rw other at h) recent)
  ]
]

has_room : (most n : ℕ) → leb most n ≡ false → n + 1 ≤ most
has_room most n h = ground arith

module _ (capacity refill_ms max_keys idle_ttl_ms sweep_interval_ms : ℕ) where
  check_entry-length :
      (key : String) (now : ℕ) (o : Option Entry) (l : Limiter)
      → get_entry key l.buckets ≡ o
      → length l.buckets ≤ max_keys
      → length
          (check_entry capacity refill_ms max_keys idle_ttl_ms sweep_interval_ms key now o
            l).1.buckets
        ≤ max_keys
  check_entry-length key now (some e) l h small =
      rw (length-set_known key (record { bucket = _; last_seen_ms = now }) e l.buckets h) small
  check_entry-length key now none l h small = elim (Bool-cases (leb max_keys (length l.buckets))) [
    | inl full ↦ rw full small
    | inr room ↦
        rw (room, length-set_new key (record { bucket = _; last_seen_ms = now }) l.buckets h)
          (has_room max_keys (length l.buckets) room)
  ]

  -- A check of a registry that holds at most `maxKeys` addresses leaves one that does.
  pub check-at_most :
      (key : String) (now : ℕ) (l : Limiter)
      → length l.buckets ≤ max_keys
      → length (check capacity refill_ms max_keys idle_ttl_ms sweep_interval_ms key now l).1.buckets
        ≤ max_keys
  unfolding check
  check-at_most key now l small =
      let fewer = sweep_if_due-length idle_ttl_ms sweep_interval_ms now l in
      check_entry-length key now _ (sweep_if_due idle_ttl_ms sweep_interval_ms now l) refl
        (omega arith)

  sweep_if_due-keeps :
      (key : String) (now : ℕ) (e : Entry) (l : Limiter)
      → get_entry key l.buckets ≡ some e
      → now ≤ e.last_seen_ms + idle_ttl_ms
      → get_entry key (sweep_if_due idle_ttl_ms sweep_interval_ms now l).buckets ≡ some e
  unfolding sweep_if_due
  sweep_if_due-keeps key now e l h recent =
      elim (Bool-cases (within now l.last_sweep_ms sweep_interval_ms)) [
        | inl soon ↦ rw soon h
        | inr due ↦ rw due (get-sweep idle_ttl_ms now key e l.buckets h recent)
      ]

  verdict_allowed :
      (now : ℕ) (o : Bool × TokenBucket)
      → (verdict_of capacity refill_ms max_keys idle_ttl_ms sweep_interval_ms now o).0.allowed ≡ o.0
  verdict_allowed now (true, b) = refl
  verdict_allowed now (false, b) = refl

  -- An address seen within the idle time is allowed exactly if its own bucket has a token for
  -- it, and is in the registry afterwards, as seen now.
  pub check-own_bucket :
      (key : String) (now : ℕ) (e : Entry) (l : Limiter)
      → get_entry key l.buckets ≡ some e
      → now ≤ e.last_seen_ms + idle_ttl_ms
      → ((check capacity refill_ms max_keys idle_ttl_ms sweep_interval_ms key now l).0.allowed
          ≡ (take capacity refill_ms now e.bucket).0)
        × ((b : Entry) × (get_entry key
                (check capacity refill_ms max_keys idle_ttl_ms sweep_interval_ms key now
                  l).1.buckets
              ≡ some b)
            × (b.last_seen_ms ≡ now))
  unfolding check
  check-own_bucket key now e l h recent =
      rw (sweep_if_due-keeps key now e l h recent)
        (verdict_allowed now _, (record { bucket = _; last_seen_ms = now }, get-set key _ _, refl))
