-- ===== src/Api/Feed/List.antt =====
-- services/api/src/feed/feed.service.ts, `FeedService.list`: one page of the feed, without the
-- pictures and the summaries that are looked up for its items. The database keeps the published
-- contents in the order of the query (publication time, then id, the newest first) as a list; how it
-- compares ids is a parameter. A published content has a publication time.
use gachinol.Prelude.{
  ℕ, suc, Bool, true, ◌&&◌, ◌||◌, Option, none, some, List, [], ◌∷◌, ◌==◌, number_eq, ltb, length,
  take, if◌then◌else◌,
}
use gachinol.Api.Exec.{Result, ok, err, validation_failed}
use gachinol.Api.Contents.Database.{Text}
use gachinol.Api.Feed.Cursor.{Runtime, FeedCursor, encode_feed_cursor, decode_feed_cursor}

pub record FeedRow : Type 0 where
  pub id : Text
  pub published_at : ℕ
  pub station_id : Text
  pub category : Text

pub record FeedPage : Type 0 where
  pub items : List FeedRow
  pub next_cursor : Option Text

abbrev pub select {ℓ} : {A : Type ℓ} → (A → Bool) → List A → List A
select p [] = []
select p (x ∷ rest) = if p x then x ∷ select p rest else select p rest

abbrev pub last_of {ℓ} : {A : Type ℓ} → A → List A → A
last_of x [] = x
last_of x (y ∷ rest) = last_of y rest

-- `id_lt` compares ids as the database does. A row comes after a cursor.
abbrev pub is_after : (Text → Text → Bool) → ℕ → Text → FeedRow → Bool
is_after id_lt at id row = ltb row.published_at at || (row.published_at == at && id_lt row.id id)

abbrev pub time_of : Option ℕ → ℕ
time_of none = 0
time_of (some at) = at

module _ (run : Runtime) (id_lt : Text → Text → Bool) where
  -- A cursor that decodes has a date, so the 0 is never used.
  abbrev pub from_cursor : FeedCursor → FeedRow → Bool
  from_cursor c row = is_after id_lt (time_of (run.parse_date c.published_at)) c.id row

  abbrev pub cursor_of : FeedRow → Text
  cursor_of row = encode_feed_cursor run (run.to_iso_string row.published_at) row.id

  abbrev pub next_of : List FeedRow → Option Text
  next_of [] = none
  next_of (r ∷ rest) = some (cursor_of (last_of r rest))

  -- One row more than the page holds tells whether there is another page.
  unfoldable pub page_of : ℕ → List FeedRow → FeedPage
  page_of limit rows =
      if ltb limit (length rows)
      then record { items = take limit rows; next_cursor = next_of (take limit rows) }
      else record { items = rows; next_cursor = none }

  abbrev decoded : Text → Option FeedCursor → Result (FeedRow → Bool)
  decoded raw none = err validation_failed
  decoded raw (some c) = ok (from_cursor c)

  abbrev pub cursor_filter : Option Text → Result (FeedRow → Bool)
  cursor_filter none = ok (λ row. true)
  cursor_filter (some raw) = decoded raw (decode_feed_cursor run raw)

  abbrev pub page_after :
      ℕ → (FeedRow → Bool) → List FeedRow → Result (FeedRow → Bool) → Result FeedPage
  page_after limit wanted published (err e) = err e
  page_after limit wanted published (ok after) =
      ok (page_of limit (take (suc limit) (select (λ row. wanted row && after row) published)))

  -- `wanted` are the conditions on the station and on the category.
  unfoldable pub feed_list : ℕ → Option Text → (FeedRow → Bool) → List FeedRow → Result FeedPage
  unfolding page_of
  feed_list limit cursor wanted published = page_after limit wanted published (cursor_filter cursor)
