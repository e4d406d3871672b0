-- ===== src/Api/Media/AssetLaws.antt =====
-- The table of media assets: one row for each stored object, and repeated deliveries.
use gachinol.Prelude.{
  ℕ, ◌≡◌, refl, sym, ◌∙◌, inl, inr, String, Bool, true, false, Option, none, some, [], ◌∷◌,
  string_eq, number_eq, eq_self, eq_of_test, and_true, Bool-cases, All,
}
use gachinol.Api.Media.Assets.{
  MediaAsset, Assets, ProducedAsset, media_asset_kind_eq, media_asset_status_eq, is_at, upsert,
  remove_all, update_at, output_row, refresh, create_original_pending, mark_ready, mark_failed,
  upsert_output, or_unchanged, reissue, original_row, Write, creates_original, marks_ready,
  marks_failed, upserts_output, write,
}

-- No two rows stand for one stored object.
abbrev pub Elsewhere : String → String → MediaAsset → Type 0
Elsewhere bucket key a = is_at bucket key a ≡ false

abbrev pub OneRowEach : Assets → Type 0
OneRowEach [] = Unit
OneRowEach (a ∷ rest) = All (Elsewhere a.bucket a.storage_key) rest × OneRowEach rest

is_at_self : (a : MediaAsset) → is_at a.bucket a.storage_key a ≡ true
is_at_self a = rw (eq_self a.bucket, eq_self a.storage_key) refl

true≢false : true ≡ false → ⊥
true≢false e = cc

Elsewhere-sym :
    (a b : MediaAsset) → Elsewhere a.bucket a.storage_key b → Elsewhere b.bucket b.storage_key a
Elsewhere-sym a b h = elim (Bool-cases (is_at b.bucket b.storage_key a)) [
  | inl same ↦
      let (p, q) = and_true _ _ same in
      let p' = eq_of_test a.bucket b.bucket p in
      let q' = eq_of_test a.storage_key b.storage_key q in
      absurd (true≢false (sym (is_at_self b) ∙ (rw (p', q') at h)))
  | inr differs ↦ differs
]

-- A change that leaves the place of a row alone.
record KeepsPlace (f : MediaAsset → MediaAsset) : Type 0 where
  same_bucket : (a : MediaAsset) → (f a).bucket ≡ a.bucket
  same_key : (a : MediaAsset) → (f a).storage_key ≡ a.storage_key

module _ (P : MediaAsset → Type 0) where
  All-remove_all : (p : MediaAsset → Bool) (xs : Assets) → All P xs → All P (remove_all p xs)
  All-remove_all p [] h = tt
  All-remove_all p (a ∷ rest) h = elim (Bool-cases (p a)) [
    | inl gone ↦ rw gone (All-remove_all p rest h.1)
    | inr stays ↦ rw stays (h.0, All-remove_all p rest h.1)
  ]

  All-upsert :
      (b k : String) (fresh : MediaAsset) (change : MediaAsset → MediaAsset) (xs : Assets)
      → P fresh
      → ((a : MediaAsset) → P a → P (change a))
      → All P xs
      → All P (upsert b k fresh change xs)
  All-upsert b k fresh change [] new keeps h = (new, tt)
  All-upsert b k fresh change (a ∷ rest) new keeps h = elim (Bool-cases (is_at b k a)) [
    | inl here ↦ rw here (keeps a h.0, h.1)
    | inr other ↦ rw other (h.0, All-upsert b k fresh change rest new keeps h.1)
  ]

OneRowEach-remove_all :
    (p : MediaAsset → Bool) (xs : Assets) → OneRowEach xs → OneRowEach (remove_all p xs)
OneRowEach-remove_all p [] h = tt
OneRowEach-remove_all p (a ∷ rest) h = elim (Bool-cases (p a)) [
  | inl gone ↦ rw gone (OneRowEach-remove_all p rest h.1)
  | inr stays ↦ rw stays (All-remove_all _ p rest h.0, OneRowEach-remove_all p rest h.1)
]

module _ (change : MediaAsset → MediaAsset) (keeps : KeepsPlace change) where
  place_test : (b k : String) (a : MediaAsset) → is_at b k (change a) ≡ is_at b k a
  place_test b k a = rw (keeps.same_bucket a, keeps.same_key a) refl

  Elsewhere-change : (b k : String) (a : MediaAsset) → Elsewhere b k a → Elsewhere b k (change a)
  Elsewhere-change b k a h = place_test b k a ∙ h

  changed_head :
      (a : MediaAsset) (rest : Assets) → OneRowEach (a ∷ rest) → OneRowEach (change a ∷ rest)
  changed_head a rest h = rw (keeps.same_bucket a, keeps.same_key a) h

  OneRowEach-upsert :
      (fresh : MediaAsset) (xs : Assets)
      → OneRowEach xs
      → OneRowEach (upsert fresh.bucket fresh.storage_key fresh change xs)
  OneRowEach-upsert fresh [] h = (tt, tt)
  OneRowEach-upsert fresh (a ∷ rest) h =
      elim (Bool-cases (is_at fresh.bucket fresh.storage_key a)) [
        | inl here ↦ rw here (changed_head a rest h)
        | inr other ↦ rw other (
          All-upsert _ _ _ fresh change rest (Elsewhere-sym fresh a other)
              (Elsewhere-change a.bucket a.storage_key) h.0,
          OneRowEach-upsert fresh rest h.1,
        )
      ]

  -- Doing it again, with another id for a new row, changes nothing.
  upsert-again :
      (fresh other : MediaAsset) (xs : Assets)
      → change fresh ≡ fresh
      → ((a : MediaAsset) → change (change a) ≡ change a)
      → upsert fresh.bucket fresh.storage_key other change
          (upsert fresh.bucket fresh.storage_key fresh change xs)
        ≡ upsert fresh.bucket fresh.storage_key fresh change xs
  upsert-again fresh other [] settled twice = rw (is_at_self fresh, settled) refl
  upsert-again fresh other (a ∷ rest) settled twice =
      elim (Bool-cases (is_at fresh.bucket fresh.storage_key a)) [
        | inl here ↦ rw (here) (rw (place_test _ _ a ∙ here, twice a) refl)
        | inr away ↦ rw away (rw (away, upsert-again fresh other rest settled twice) refl)
      ]

refresh-KeepsPlace : (out : ProducedAsset) → KeepsPlace (refresh out)
refresh-KeepsPlace out = record { same_bucket = λ a. refl; same_key = λ a. refl }

-- A result that is delivered again, whatever new id is at hand, leaves the table as the first
-- delivery left it.
pub upsert_output-again :
    (id id' content_id : String) (generation : ℕ) (job : String) (out : ProducedAsset)
    (assets : Assets)
    → let once = upsert_output id content_id generation job out assets in
      upsert_output id' content_id generation job out once ≡ once
unfolding upsert_output
upsert_output-again id id' content_id generation job out assets =
    upsert-again (refresh out) (refresh-KeepsPlace out)
      (output_row id content_id generation job out) (output_row id' content_id generation job out)
      assets refl (λ a. refl)

module _ (change : MediaAsset → MediaAsset) (keeps : KeepsPlace change) (bucket key : String) where
  abbrev Shape : Assets → Option Assets → Type 0
  Shape xs none = Unit
  Shape xs (some ys) =
      (OneRowEach xs → OneRowEach ys)
      × ((b k : String) → All (Elsewhere b k) xs → All (Elsewhere b k) ys)

  update_at-Shape : (xs : Assets) → Shape xs (update_at bucket key change xs)
  update_at-Shape [] = tt
  update_at-Shape (a ∷ rest) = elim (Bool-cases (is_at bucket key a)) [
    | inl here ↦
        rw here (
          changed_head change keeps a rest,
          λ b k h. (Elsewhere-change change keeps b k a h.0, h.1),
        )
    | inr other ↦ rw other (deeper (update_at bucket key change rest) (update_at-Shape rest))
  ]
    where
      deeper :
          (o : Option Assets)
          → Shape rest o
          → Shape (a ∷ rest) (elim o [ none ↦ none | some ys ↦ some (a ∷ ys) ])
      deeper none h = tt
      deeper (some ys) h = (
        λ unique. (h.1 a.bucket a.storage_key unique.0, h.0 unique.1),
        λ b k away. (away.0, h.1 b k away.1),
      )

  update_at-OneRowEach :
      (xs : Assets) → OneRowEach xs → OneRowEach (or_unchanged xs (update_at bucket key change xs))
  update_at-OneRowEach xs h = settle (update_at bucket key change xs) (update_at-Shape xs)
    where
      settle : (o : Option Assets) → Shape xs o → OneRowEach (or_unchanged xs o)
      settle none k = h
      settle (some ys) k = k.0 h

-- Every write of the service keeps that no two rows stand for one stored object.
pub write-OneRowEach :
    (w : Write) (assets : Assets) → OneRowEach assets → OneRowEach (write w assets)
unfolding write create_original_pending mark_ready mark_failed upsert_output
write-OneRowEach (creates_original bucket id content_id key mime_type size) assets h =
    OneRowEach-remove_all _ _ (
      OneRowEach-upsert (reissue mime_type size)
        (record { same_bucket = λ a. refl; same_key = λ a. refl })
        (original_row bucket id content_id key mime_type size) assets h)
write-OneRowEach (marks_ready bucket key size duration) assets h =
    update_at-OneRowEach _ (record { same_bucket = λ a. refl; same_key = λ a. refl }) bucket key
      assets h
write-OneRowEach (marks_failed bucket key) assets h =
    update_at-OneRowEach _ (record { same_bucket = λ a. refl; same_key = λ a. refl }) bucket key
      assets h
write-OneRowEach (upserts_output id content_id generation job out) assets h =
    OneRowEach-upsert (refresh out) (refresh-KeepsPlace out)
      (output_row id content_id generation job out) assets h
