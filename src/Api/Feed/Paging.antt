-- ===== src/Api/Feed/Paging.antt =====
-- Lists in pages: what is taken, what is left, and what comes after a row.
use gachinol.Prelude.{
  ℕ, zero, suc, ◌≤◌, ◌≡◌, refl, ap, ◌⊎◌, inl, inr, Bool, true, false, ◌&&◌, none, some, List, [],
  ◌∷◌, ◌++◌, number_eq, ltb, length, length-append, take, Bool-cases, arith, All,
}
use gachinol.Api.Contents.Database.{Text}
use gachinol.Api.Feed.Cursor.{Runtime}
use gachinol.Api.Feed.List.{FeedRow, select, last_of, cursor_of, next_of, page_of}

module _ {A : Type 0} where
  pub select-and :
      (p q : A → Bool) (xs : List A) → select (λ x. p x && q x) xs ≡ select q (select p xs)
  select-and p q [] = refl
  select-and p q (x ∷ xs) = elim (Bool-cases (p x)) [
    | inl hit ↦ elim (Bool-cases (q x)) [
      | inl both ↦ rw (hit, both, select-and p q xs) refl
      | inr one ↦ rw (hit, one, select-and p q xs) refl
    ]
    | inr miss ↦ rw (miss, select-and p q xs) refl
  ]

  pub select_each : (p : A → Bool) (xs : List A) → All (λ x. p x ≡ true) xs → select p xs ≡ xs
  select_each p [] h = refl
  select_each p (x ∷ xs) h = rw (h.0, select_each p xs h.1) refl

  pub All-select : (P : A → Type 0) (p : A → Bool) (xs : List A) → All P xs → All P (select p xs)
  All-select P p [] h = tt
  All-select P p (x ∷ xs) h = elim (Bool-cases (p x)) [
    | inl hit ↦ rw hit (h.0, All-select P p xs h.1)
    | inr miss ↦ rw miss (All-select P p xs h.1)
  ]

  pub length-select-le : (p : A → Bool) (xs : List A) → length (select p xs) ≤ length xs
  length-select-le p [] = omega arith
  length-select-le p (x ∷ xs) = elim (Bool-cases (p x)) [
    | inl hit ↦ rw hit (omega (arith, length-select-le p xs))
    | inr miss ↦ rw miss (omega (arith, length-select-le p xs))
  ]

  pub All-middle : (P : A → Type 0) (xs ys : List A) (x : A) → All P (xs ++ x ∷ ys) → P x
  All-middle P [] ys x h = h.0
  All-middle P (y ∷ xs) ys x h = All-middle P xs ys x h.1

  pub take_short : (n : ℕ) (xs : List A) → length xs ≤ n → take n xs ≡ xs
  take_short zero [] h = refl
  take_short (suc n) [] h = refl
  take_short zero (x ∷ xs) h = absurd (omega arith)
  take_short (suc n) (x ∷ xs) h = ap (λ r. x ∷ r) (take_short n xs (omega arith))

  take_two :
      (p : List A) (r y : A) (ys : List A)
      → take (suc (suc (length p))) (p ++ r ∷ y ∷ ys) ≡ p ++ r ∷ y ∷ []
  take_two [] r y ys = refl
  take_two (x ∷ p) r y ys = ap (λ t. x ∷ t) (take_two p r y ys)

  take_one :
      (p : List A) (r : A) (rest : List A) → take (suc (length p)) (p ++ r ∷ rest) ≡ p ++ r ∷ []
  take_one [] r rest = refl
  take_one (x ∷ p) r rest = ap (λ t. x ∷ t) (take_one p r rest)

  last-append : (x r : A) (p : List A) → last_of x (p ++ r ∷ []) ≡ r
  last-append x r [] = refl
  last-append x r (y ∷ p) = last-append y r p

  -- A list fits a page of `suc l` items, or has a last item of the page and more behind it.
  pub record Splits (l : ℕ) (xs : List A) : Type 0 where
    pub front : List A
    pub last : A
    pub next : A
    pub rest : List A
    pub whole : xs ≡ front ++ last ∷ next ∷ rest
    pub size : length front ≡ l

  pub split_cases : (l : ℕ) (xs : List A) → (length xs ≤ suc l) ⊎ Splits l xs
  split_cases l [] = inl (omega arith)
  split_cases zero (x ∷ []) = inl (omega arith)
  split_cases zero (x ∷ y ∷ ys) =
      inr (record { front = []; last = x; next = y; rest = ys; whole = refl; size = refl })
  split_cases (suc l) (x ∷ xs) = elim (split_cases l xs) [
    | inl fits ↦ inl (omega (arith, fits))
    | inr s ↦ inr (record {
      front = x ∷ s.front;
      last = s.last;
      next = s.next;
      rest = s.rest;
      whole = ap (λ t. x ∷ t) s.whole;
      size = ap suc s.size;
    })
  ]

module _ (run : Runtime) (id_lt : Text → Text → Bool) where
  pub page_of-last :
      (limit : ℕ) (xs : List FeedRow)
      → length xs ≤ limit
      → page_of run id_lt limit (take (suc limit) xs) ≡ record { items = xs; next_cursor = none }
  unfolding page_of
  page_of-last limit xs h = rw (take_short (suc limit) xs (omega (arith, h)), short) refl
    where
      short : ltb limit (length xs) ≡ false
      short = ground (arith, h)

  next_of-append :
      (p : List FeedRow) (r : FeedRow)
      → next_of run id_lt (p ++ r ∷ []) ≡ some (cursor_of run id_lt r)
  next_of-append [] r = refl
  next_of-append (x ∷ p) r = ap (λ t. some (cursor_of run id_lt t)) (last-append x r p)

  pub page_of-split :
      (p : List FeedRow) (r y : FeedRow) (ys : List FeedRow)
      → page_of run id_lt (suc (length p)) (take (suc (suc (length p))) (p ++ r ∷ y ∷ ys))
        ≡ record { items = p ++ r ∷ []; next_cursor = some (cursor_of run id_lt r) }
  unfolding page_of
  page_of-split p r y ys =
      rw (take_two p r y ys, longer, take_one p r (y ∷ []), next_of-append p r) refl
    where
      longer : ltb (suc (length p)) (length (p ++ r ∷ y ∷ [])) ≡ true
      longer = ground (arith, length-append p (r ∷ y ∷ []))
