-- ===== src/Tests/Feed.antt =====
-- The theorems on the feed, for two contents and a runtime with unary dates.
use gachinol.Prelude.{
  ℕ, zero, suc, ◌<◌, ◌≡◌, ◌≢◌, refl, true, Option, none, some, [], ◌∷◌, ltb, length, arith, All,
  Bool,
}
use gachinol.Api.Contents.Database.{Text}
use gachinol.Api.Feed.Cursor.{Runtime, bar, encode_feed_cursor, decode_feed_cursor}
use gachinol.Api.Feed.CursorLaws.{decode-encode}
use gachinol.Api.Feed.List.{FeedRow}
use gachinol.Api.Feed.Client.{Documented, IsStrict, walk}
use gachinol.Api.Feed.Walk.{walk-whole_feed}

abbrev unary_date : ℕ → Text
unary_date zero = 48 ∷ []
unary_date (suc n) = 48 ∷ unary_date n

abbrev read_unary : Text → Option ℕ
read_unary [] = none
read_unary (c ∷ rest) = some (length rest)

abbrev plain : Runtime
plain = record {
  to_base64url = λ t. t;
  from_base64url = λ t. t;
  to_iso_string = unary_date;
  parse_date = read_unary;
}

length-unary_date : (n : ℕ) → length (unary_date n) ≡ suc n
length-unary_date zero = refl
length-unary_date (suc n) = omega (arith, length-unary_date n)

read_unary-unary_date : (n : ℕ) → read_unary (unary_date n) ≡ some n
read_unary-unary_date zero = refl
read_unary-unary_date (suc n) = rw (length-unary_date n) refl

All-digits : (P : ℕ → Type 0) → P 48 → (n : ℕ) → All P (unary_date n)
All-digits P h zero = (h, tt)
All-digits P h (suc n) = (h, All-digits P h n)

unary_text : (n : ℕ) → unary_date n ≢ []
unary_text zero e = cc
unary_text (suc n) e = cc

plain-Documented : Documented plain
plain-Documented = record {
  keeps_ascii = λ t h. refl;
  reads_date = read_unary-unary_date;
  date_ascii = λ at. All-digits (λ c. c < 128) (omega arith) at;
  date_bar = λ at. All-digits (λ c. c ≢ bar) (λ e. absurd (omega arith)) at;
  date_text = unary_text;
}

abbrev shorter : Text → Text → Bool
shorter a b = ltb (length a) (length b)

shorter-IsStrict : IsStrict shorter
shorter-IsStrict a b h = ground arith

abbrev festival : FeedRow
festival = record { id = 50 ∷ 50 ∷ []; published_at = 5; station_id = 97 ∷ []; category = 110 ∷ [] }

abbrev harvest : FeedRow
harvest = record { id = 51 ∷ []; published_at = 5; station_id = 97 ∷ []; category = 110 ∷ [] }

-- Both were published at the same time, and a page holds one.
walk-whole_feed_example :
    walk plain shorter 3 1 none (λ row. true) (festival ∷ harvest ∷ [])
    ≡ some (festival ∷ harvest ∷ [])
walk-whole_feed_example =
    walk-whole_feed plain shorter 1 (λ row. true) (festival ∷ harvest ∷ []) plain-Documented
      shorter-IsStrict ((refl, tt), (tt, tt))
      (((omega arith, (omega arith, tt)), λ e. cc), ((((omega arith, tt), λ e. cc)), tt))
      (omega arith)

decode-encode_example :
    decode_feed_cursor plain (encode_feed_cursor plain (unary_date 1) (51 ∷ []))
    ≡ some (record { published_at = unary_date 1; id = 51 ∷ [] })
decode-encode_example =
    decode-encode plain (unary_date 1) (51 ∷ []) 1 (λ t h. refl) (omega arith, (omega arith, tt))
      (omega arith, tt) ((λ e. absurd (omega arith)), ((λ e. absurd (omega arith)), tt)) (λ e. cc)
      (λ e. cc) refl
