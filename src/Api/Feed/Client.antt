-- ===== src/Api/Feed/Client.antt =====
-- A subscriber who asks for page after page, and what the feed supposes of its surroundings.
use gachinol.Prelude.{
  ℕ, zero, suc, ◌≡◌, ◌≢◌, Bool, true, false, Option, none, some, List, [], ◌∷◌, ◌++◌, number_eq,
  All,
}
use gachinol.Api.Exec.{Result, ok, err}
use gachinol.Api.Contents.Database.{Text}
use gachinol.Api.Feed.Cursor.{Runtime, bar}
use gachinol.Api.Feed.CursorLaws.{IsAscii, KeepsAscii}
use gachinol.Api.Feed.List.{FeedRow, FeedPage, is_after, feed_list}

-- What the runtime documents of `toISOString` and `Date.parse`, and of base64url.
pub record Documented (run : Runtime) : Type 0 where
  pub keeps_ascii : KeepsAscii run
  pub reads_date : (at : ℕ) → run.parse_date (run.to_iso_string at) ≡ some at
  pub date_ascii : (at : ℕ) → IsAscii (run.to_iso_string at)
  pub date_bar : (at : ℕ) → All (λ c. c ≢ bar) (run.to_iso_string at)
  pub date_text : (at : ℕ) → run.to_iso_string at ≢ []

-- The database compares ids by a strict order: of two ids not both are less than the other.
abbrev pub IsStrict : (Text → Text → Bool) → Type 0
IsStrict id_lt = (a b : Text) → id_lt a b ≡ true → id_lt b a ≡ false

-- An id is a text that a cursor can hold.
abbrev pub HasId : FeedRow → Type 0
HasId row = IsAscii row.id × (row.id ≢ [])

-- Each row comes after those before it.
abbrev pub IsDescending : (Text → Text → Bool) → List FeedRow → Type 0
IsDescending id_lt [] = Unit
IsDescending id_lt (r ∷ rest) =
    All (λ x. is_after id_lt r.published_at r.id x ≡ true) rest × IsDescending id_lt rest

abbrev joined : List FeedRow → Option (List FeedRow) → Option (List FeedRow)
joined items none = none
joined items (some more) = some (items ++ more)

abbrev follow : (Text → Option (List FeedRow)) → List FeedRow → Option Text → Option (List FeedRow)
follow more items none = some items
follow more items (some cursor) = joined items (more cursor)

abbrev follow_page : (Text → Option (List FeedRow)) → Result FeedPage → Option (List FeedRow)
follow_page more (err e) = none
follow_page more (ok page) = follow more page.items page.next_cursor

-- All the items that one sees by asking for the next page until there is none; `none` if a request
-- fails or more than `fuel` pages are asked for.
unfoldable pub walk :
    Runtime
    → (Text → Text → Bool)
    → ℕ
    → ℕ
    → Option Text
    → (FeedRow → Bool)
    → List FeedRow
    → Option (List FeedRow)
walk run id_lt zero limit cursor wanted published = none
walk run id_lt (suc fuel) limit cursor wanted published =
    follow_page (λ next. walk run id_lt fuel limit (some next) wanted published)
      (feed_list run id_lt limit cursor wanted published)
