-- ===== src/Api/Feed/CursorLaws.antt =====
-- A cursor that the server has issued is read back.
use gachinol.Prelude.{
  ℕ, ◌<◌, ◌≡◌, ◌≢◌, refl, some, [], ◌∷◌, ◌++◌, number_eq, test_of_ne, arith, All, All-append,
}
use gachinol.Api.Contents.Database.{Text}
use gachinol.Api.Feed.Cursor.{
  Runtime, bar, split_at_bar, checked, encode_feed_cursor, decode_feed_cursor,
}

abbrev pub IsAscii : Text → Type 0
IsAscii t = All (λ c. c < 128) t

-- What the runtime documents: base64url keeps every ASCII text.
abbrev pub KeepsAscii : Runtime → Type 0
KeepsAscii run = (t : Text) → IsAscii t → run.from_base64url (run.to_base64url t) ≡ t

split-append :
    (before after : Text)
    → All (λ c. c ≢ bar) before
    → split_at_bar (before ++ bar ∷ after) ≡ some (before, after)
split-append [] after h = refl
split-append (c ∷ rest) after h = rw (test_of_ne c bar h.0, split-append rest after h.1) refl

module _ (run : Runtime) where
  checked_parts :
      (published_at id : Text) (at : ℕ)
      → published_at ≢ []
      → id ≢ []
      → run.parse_date published_at ≡ some at
      → checked run (some (published_at, id))
        ≡ some (record { published_at = published_at; id = id })
  checked_parts [] id at n m e = absurd (n refl)
  checked_parts (c ∷ p) [] at n m e = absurd (m refl)
  checked_parts (c ∷ p) (d ∷ id) at n m e = rw e refl

  -- A cursor decodes to what it was made from, if base64url keeps ASCII texts, both parts are
  -- ASCII and not empty, the first is a date and has no bar in it.
  pub decode-encode :
      (published_at id : Text) (at : ℕ)
      → KeepsAscii run
      → IsAscii published_at
      → IsAscii id
      → All (λ c. c ≢ bar) published_at
      → published_at ≢ []
      → id ≢ []
      → run.parse_date published_at ≡ some at
      → decode_feed_cursor run (encode_feed_cursor run published_at id)
        ≡ some (record { published_at = published_at; id = id })
  unfolding decode_feed_cursor encode_feed_cursor
  decode-encode published_at id at keeps ascii_date ascii_id no_bar n m e =
      rw
        (
          keeps (published_at ++ bar ∷ id) (
              All-append (λ c. c < 128) published_at (bar ∷ id) ascii_date (omega arith, ascii_id)),
          split-append published_at id no_bar,
        )
        (checked_parts published_at id at n m e)
