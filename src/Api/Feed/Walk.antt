-- ===== src/Api/Feed/Walk.antt =====
-- What a subscriber sees who asks for page after page.
use gachinol.Prelude.{
  ℕ, zero, suc, ◌≤◌, ◌<◌, ◌≡◌, refl, sym, ap, ◌∙◌, subst, inl, inr, Bool, true, false, Option, none,
  some, List, [], ◌∷◌, ◌++◌, number_eq, length, length-append, take, Bool-cases, arith, All,
}
use mathlib.Core.List.{append_assoc}
use gachinol.Api.Exec.{Result, ok}
use gachinol.Api.Contents.Database.{Text}
use gachinol.Api.Feed.Cursor.{Runtime}
use gachinol.Api.Feed.CursorLaws.{decode-encode}
use gachinol.Api.Feed.List.{
  FeedRow, FeedPage, time_of, select, is_after, cursor_of, cursor_filter, page_of, feed_list,
}
use gachinol.Api.Feed.Paging.{
  length-select-le, select-and, select_each, All-select, All-middle, Splits, split_cases,
  page_of-last, page_of-split,
}
use gachinol.Api.Feed.Client.{Documented, IsStrict, HasId, IsDescending, walk}

IsDescending-select :
    (id_lt : Text → Text → Bool) (p : FeedRow → Bool) (xs : List FeedRow)
    → IsDescending id_lt xs
    → IsDescending id_lt (select p xs)
IsDescending-select id_lt p [] h = tt
IsDescending-select id_lt p (x ∷ xs) h = elim (Bool-cases (p x)) [
  | inl hit ↦ rw hit (All-select _ p xs h.0, IsDescending-select id_lt p xs h.1)
  | inr miss ↦ rw miss (IsDescending-select id_lt p xs h.1)
]

module _ (id_lt : Text → Text → Bool) (strict : IsStrict id_lt) where
  -- Of two rows not both come after the other.
  not_before :
      (x r : FeedRow)
      → is_after id_lt x.published_at x.id r ≡ true
      → is_after id_lt r.published_at r.id x ≡ false
  not_before x r h = ground (arith, strict r.id x.id)

  not_self : (r : FeedRow) → is_after id_lt r.published_at r.id r ≡ false
  not_self r = elim (Bool-cases (is_after id_lt r.published_at r.id r)) [
    | inl h ↦ not_before r r h
    | inr h ↦ h
  ]

  -- What comes after a row is what stands behind it.
  select_behind :
      (xs : List FeedRow) (r : FeedRow) (ys : List FeedRow)
      → IsDescending id_lt (xs ++ r ∷ ys)
      → select (is_after id_lt r.published_at r.id) (xs ++ r ∷ ys) ≡ ys
  select_behind [] r ys h = rw (not_self r) (select_each _ ys h.0)
  select_behind (x ∷ xs) r ys h =
      rw (not_before x r (All-middle _ xs ys r h.0)) (select_behind xs r ys h.1)

module _ (run : Runtime) (documented : Documented run) (id_lt : Text → Text → Bool)
    (strict : IsStrict id_lt) (l : ℕ) (wanted : FeedRow → Bool) (published : List FeedRow)
    (descending : IsDescending id_lt published) (ids : All HasId published) where
  abbrev feed : List FeedRow
  feed = select wanted published

  -- The cursor of a row is read as that row.
  filter_of :
      (r : FeedRow)
      → HasId r
      → cursor_filter run id_lt (some (cursor_of run id_lt r))
        ≡ ok (is_after id_lt r.published_at r.id)
  filter_of r (ascii, not_empty) =
      rw
        (decode-encode run (run.to_iso_string r.published_at) r.id r.published_at
          documented.keeps_ascii (documented.date_ascii r.published_at) ascii
          (documented.date_bar r.published_at) (documented.date_text r.published_at) not_empty
          (documented.reads_date r.published_at))
        (ap (λ n. ok (λ row. is_after id_lt (time_of n) r.id row))
          (documented.reads_date r.published_at))

  abbrev ask : Option Text → Result FeedPage
  ask cursor = feed_list run id_lt (suc l) cursor wanted published

  -- The request at a cursor answers the first page of `rows`.
  abbrev Answers : Option Text → List FeedRow → Type 0
  Answers cursor rows = ask cursor ≡ ok (page_of run id_lt (suc l) (take (suc (suc l)) rows))

  Answers-first : Answers none feed
  unfolding feed_list
  Answers-first =
      ap (λ rows. ok (page_of run id_lt (suc l) (take (suc (suc l)) rows)))
        (select-and wanted (λ row. true) published ∙ select_each _ feed (all_true feed))
    where
      all_true : (xs : List FeedRow) → All (λ x. true ≡ true) xs
      all_true [] = tt
      all_true (x ∷ xs) = (refl, all_true xs)

  Answers-behind :
      (xs : List FeedRow) (r : FeedRow) (ys : List FeedRow)
      → feed ≡ xs ++ r ∷ ys
      → Answers (some (cursor_of run id_lt r)) ys
  unfolding feed_list
  Answers-behind xs r ys e = rw (filter_of r r_HasId) (
      ap (λ rows. ok (page_of run id_lt (suc l) (take (suc (suc l)) rows)))
        (select-and wanted (is_after id_lt r.published_at r.id) published
          ∙ ap (select (is_after id_lt r.published_at r.id)) e
          ∙ select_behind id_lt strict xs r ys (
              subst (IsDescending id_lt) e
                (IsDescending-select id_lt wanted published descending))))
    where
      r_HasId : HasId r
      r_HasId =
          All-middle HasId xs ys r (subst (All HasId) e (All-select HasId wanted published ids))

  behind :
      (seen : List FeedRow) {rows : List FeedRow} (s : Splits l rows)
      → feed ≡ seen ++ rows
      → feed ≡ (seen ++ s.front) ++ s.last ∷ s.next ∷ s.rest
  behind seen s e =
      e ∙ ap (λ t. seen ++ t) s.whole ∙ sym (append_assoc seen s.front (s.last ∷ s.next ∷ s.rest))

  first_page :
      {rows : List FeedRow} (s : Splits l rows)
      → page_of run id_lt (suc l) (take (suc (suc l)) rows)
        ≡ record { items = s.front ++ s.last ∷ []; next_cursor = some (cursor_of run id_lt s.last) }
  first_page s =
      ap (λ xs. page_of run id_lt (suc l) (take (suc (suc l)) xs)) s.whole
      ∙ subst
          (λ n.
            page_of run id_lt (suc n) (take (suc (suc n)) (s.front ++ s.last ∷ s.next ∷ s.rest))
            ≡ record {
              items = s.front ++ s.last ∷ [];
              next_cursor = some (cursor_of run id_lt s.last);
            })
          s.size (page_of-split run id_lt s.front s.last s.next s.rest)

  -- `seen` is what came before; `rows` is what is left.
  walk-rest :
      (fuel : ℕ) (cursor : Option Text) (seen rows : List FeedRow)
      → Answers cursor rows
      → feed ≡ seen ++ rows
      → length rows < fuel
      → walk run id_lt fuel (suc l) cursor wanted published ≡ some rows
  unfolding walk
  walk-rest zero cursor seen rows a e h = absurd (omega arith)
  walk-rest (suc fuel) cursor seen rows a e h = elim (split_cases l rows) [
    | inl fits ↦ rw (a, page_of-last run id_lt (suc l) rows fits) refl
    | inr s ↦
        let here = behind seen s e in
        let next_rows = s.next ∷ s.rest in
        let rest_seen =
          walk-rest fuel (some (cursor_of run id_lt s.last)) ((seen ++ s.front) ++ s.last ∷ [])
            next_rows (Answers-behind (seen ++ s.front) s.last next_rows here)
            (here ∙ sym (append_assoc (seen ++ s.front) (s.last ∷ []) next_rows))
            (omega (arith, h, ap length s.whole, length-append s.front (s.last ∷ next_rows))) in
        rw (a, first_page s, rest_seen)
          (ap some (append_assoc s.front (s.last ∷ []) next_rows ∙ sym s.whole))
  ]

-- Whoever asks for page after page, until a page has no cursor, gets no error and sees each wanted
-- content once, in the order of the feed: it takes no more requests than there are contents, and
-- one. The contents are to stand in the order of the query and to have ids that a cursor can
-- hold, the ids are to be compared by a strict order, and a page is to have room for one item.
pub walk-whole_feed :
    (run : Runtime) (id_lt : Text → Text → Bool) (limit : ℕ) (wanted : FeedRow → Bool)
    (published : List FeedRow)
    → Documented run
    → IsStrict id_lt
    → IsDescending id_lt published
    → All HasId published
    → 1 ≤ limit
    → walk run id_lt (suc (length published)) limit none wanted published
      ≡ some (select wanted published)
walk-whole_feed run id_lt zero wanted published d st desc ids h = absurd (omega arith)
walk-whole_feed run id_lt (suc l) wanted published d st desc ids h =
    walk-rest run d id_lt st l wanted published desc ids (suc (length published)) none []
      (select wanted published) (Answers-first run d id_lt st l wanted published desc ids) refl
      (omega (arith, length-select-le wanted published))
