-- ===== src/Api/Feed/Cursor.antt =====
-- services/api/src/feed/feed.cursor.ts. base64url over UTF-8 (Node's Buffer) and the ISO dates of
-- the runtime are parameters.
use gachinol.Prelude.{ℕ, Option, none, some, [], ◌∷◌, ◌++◌, ◌==◌, number_eq, if◌then◌else◌}
use gachinol.Api.Contents.Database.{Text}

pub record Runtime : Type 0 where
  pub to_base64url : Text → Text
  pub from_base64url : Text → Text
  pub to_iso_string : ℕ → Text  -- of a time in milliseconds
  pub parse_date : Text → Option ℕ

pub record FeedCursor : Type 0 where
  pub published_at : Text
  pub id : Text

abbrev pub bar : ℕ
bar = 124  -- '|'

abbrev in_front : ℕ → Option (Text × Text) → Option (Text × Text)
in_front c none = none
in_front c (some (before, after)) = some (c ∷ before, after)

-- The text before the first bar and the text after it.
abbrev pub split_at_bar : Text → Option (Text × Text)
split_at_bar [] = none
split_at_bar (c ∷ rest) = if c == bar then some ([], rest) else in_front c (split_at_bar rest)

module _ (run : Runtime) where
  unfoldable pub encode_feed_cursor : Text → Text → Text
  encode_feed_cursor published_at id = run.to_base64url (published_at ++ bar ∷ id)

  abbrev if_a_date : FeedCursor → Option ℕ → Option FeedCursor
  if_a_date c none = none
  if_a_date c (some at) = some c

  abbrev pub checked : Option (Text × Text) → Option FeedCursor
  checked none = none
  checked (some ([], id)) = none
  checked (some (published_at, [])) = none
  checked (some (c ∷ published_at, d ∷ id)) =
      if_a_date (record { published_at = c ∷ published_at; id = d ∷ id })
        (run.parse_date (c ∷ published_at))

  unfoldable pub decode_feed_cursor : Text → Option FeedCursor
  decode_feed_cursor raw = checked (split_at_bar (run.from_base64url raw))
