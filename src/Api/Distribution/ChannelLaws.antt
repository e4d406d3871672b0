-- ===== src/Api/Distribution/ChannelLaws.antt =====
-- Which channels `resolveTargets` answers.
use gachinol.Prelude.{
  ◌≡◌, ◌≢◌, refl, sym, subst, inl, inr, String, Bool, true, false, ◌||◌, List, [], ◌∷◌, ◌==◌,
  string_eq, eq_self, includes, any, All, Bool-cases, arith,
}
use mathlib.Core.List.{Mem, mem-cons_self, mem-cons_of_mem}
use gachinol.Api.Exec.{Result, ok, err, conflict}
use gachinol.Api.Distribution.Channels.{
  ChannelAccount, Audience, Accounts, keep, candidate_rows, is_usable, dedupe_by_id, some_target,
  deduped, resolve_targets,
}

or_false : (a b : Bool) → (a || b) ≡ false → (a ≡ false) × (b ≡ false)
or_false a b h = ground arith

abbrev pub has_id : String → Accounts → Bool
has_id id xs = any (λ c. c.id == id) xs

-- No two accounts with one id.
abbrev pub IsDistinct : Accounts → Type 0
IsDistinct [] = Unit
IsDistinct (c ∷ rest) = All (λ d. (c.id == d.id) ≡ false) rest × IsDistinct rest

module _ (P : ChannelAccount → Type 0) where
  All-keep : (p : ChannelAccount → Bool) (xs : Accounts) → All P xs → All P (keep p xs)
  All-keep p [] h = tt
  All-keep p (c ∷ rest) h = elim (Bool-cases (p c)) [
    | inl hit ↦ rw hit (h.0, All-keep p rest h.1)
    | inr miss ↦ rw miss (All-keep p rest h.1)
  ]

  All-dedupe_by_id : (seen : List String) (xs : Accounts) → All P xs → All P (dedupe_by_id seen xs)
  unfolding dedupe_by_id
  All-dedupe_by_id seen [] h = tt
  All-dedupe_by_id seen (c ∷ rest) h = elim (Bool-cases (includes seen c.id)) [
    | inl met ↦ rw met (All-dedupe_by_id seen rest h.1)
    | inr fresh ↦ rw fresh (h.0, All-dedupe_by_id (c.id ∷ seen) rest h.1)
  ]

  module _ (Q : ChannelAccount → Type 0) (f : (c : ChannelAccount) → P c → Q c) where
    All-weaken : (xs : Accounts) → All P xs → All Q xs
    All-weaken [] h = tt
    All-weaken (c ∷ rest) h = (f c h.0, All-weaken rest h.1)

keep-IsKept : (p : ChannelAccount → Bool) (xs : Accounts) → All (λ c. p c ≡ true) (keep p xs)
keep-IsKept p [] = tt
keep-IsKept p (c ∷ rest) = elim (Bool-cases (p c)) [
  | inl hit ↦ rw hit (hit, keep-IsKept p rest)
  | inr miss ↦ rw miss (keep-IsKept p rest)
]

All-Mem : (xs ys : Accounts) → ((c : ChannelAccount) → Mem c xs → Mem c ys) → All (λ c. Mem c ys) xs
All-Mem [] ys h = tt
All-Mem (c ∷ rest) ys h = (h c mem-cons_self, All-Mem rest ys (λ d m. h d (mem-cons_of_mem c m)))

-- What is kept has an id that is not among those seen.
dedupe_by_id-fresh :
    (seen : List String) (xs : Accounts)
    → All (λ c. includes seen c.id ≡ false) (dedupe_by_id seen xs)
unfolding dedupe_by_id
dedupe_by_id-fresh seen [] = tt
dedupe_by_id-fresh seen (c ∷ rest) = elim (Bool-cases (includes seen c.id)) [
  | inl met ↦ rw met (dedupe_by_id-fresh seen rest)
  | inr fresh ↦ rw fresh (
    fresh,
    All-weaken _ _ (λ d h. (or_false (c.id == d.id) _ h).1) _
        (dedupe_by_id-fresh (c.id ∷ seen) rest),
  )
]

dedupe_by_id-IsDistinct : (seen : List String) (xs : Accounts) → IsDistinct (dedupe_by_id seen xs)
unfolding dedupe_by_id
dedupe_by_id-IsDistinct seen [] = tt
dedupe_by_id-IsDistinct seen (c ∷ rest) = elim (Bool-cases (includes seen c.id)) [
  | inl met ↦ rw met (dedupe_by_id-IsDistinct seen rest)
  | inr fresh ↦ rw fresh (
    All-weaken _ _ (λ d h. (or_false (c.id == d.id) _ h).0) _
        (dedupe_by_id-fresh (c.id ∷ seen) rest),
    dedupe_by_id-IsDistinct (c.id ∷ seen) rest,
  )
]

or_assoc_swap : (a b h : Bool) → ((a || b) || h) ≡ true → (b || (a || h)) ≡ true
or_assoc_swap a b h e = ground arith

abbrev IsCovered : List String → Accounts → Accounts → Type 0
IsCovered seen xs kept = All (λ c. (includes seen c.id || has_id c.id kept) ≡ true) xs

-- No id is lost.
dedupe_by_id-IsCovered :
    (seen : List String) (xs : Accounts) → IsCovered seen xs (dedupe_by_id seen xs)
unfolding dedupe_by_id
dedupe_by_id-IsCovered seen [] = tt
dedupe_by_id-IsCovered seen (c ∷ rest) = elim (Bool-cases (includes seen c.id)) [
  | inl met ↦
      let kept : dedupe_by_id seen (c ∷ rest) ≡ dedupe_by_id seen rest = rw met refl in
      subst (IsCovered seen (c ∷ rest)) (sym kept) (rw met refl, dedupe_by_id-IsCovered seen rest)
  | inr fresh ↦
      let kept : dedupe_by_id seen (c ∷ rest) ≡ c ∷ dedupe_by_id (c.id ∷ seen) rest =
        rw fresh refl in
      subst (IsCovered seen (c ∷ rest)) (sym kept) (
        rw (fresh, eq_self c.id) refl,
        All-weaken _ _ (λ d h. or_assoc_swap (c.id == d.id) (includes seen d.id) _ h) rest
            (dedupe_by_id-IsCovered (c.id ∷ seen) rest),
      )
]

-- The channels that are to be used, of the candidates.
pub record Resolved (candidates targets : Accounts) : Type 0 where
  pub some_target : targets ≢ []
  pub usable : All (λ c. is_usable c ≡ true) targets
  pub of_candidates : All (λ c. Mem c candidates) targets
  pub distinct : IsDistinct targets
  pub complete : All (λ c. is_usable c ≡ true → has_id c.id targets ≡ true) candidates

abbrev pub Resolves : Accounts → Result Accounts → Type 0
Resolves candidates (ok targets) = Resolved candidates targets
Resolves candidates (err e) = (e ≡ conflict) × All (λ c. is_usable c ≡ false) candidates

none_kept : (xs : Accounts) → keep is_usable xs ≡ [] → All (λ c. is_usable c ≡ false) xs
none_kept [] e = tt
none_kept (c ∷ rest) e = elim (Bool-cases (is_usable c)) [
  | inl hit ↦ absurd (cc (rw hit at e))
  | inr miss ↦ (miss, none_kept rest (rw miss at e))
]

-- What holds of the ids of all that is kept holds of the id of each usable candidate.
All-unkeep :
    (P : ChannelAccount → Type 0) (xs : Accounts)
    → All P (keep is_usable xs)
    → All (λ c. is_usable c ≡ true → P c) xs
All-unkeep P [] h = tt
All-unkeep P (c ∷ rest) h = elim (Bool-cases (is_usable c)) [
  | inl hit ↦
      let h' : P c × All P (keep is_usable rest) = rw hit at h in
      ((λ _. h'.0), All-unkeep P rest h'.1)
  | inr miss ↦ ((λ u. absurd (cc (miss, u))), All-unkeep P rest (rw miss at h))
]

dedupe-ne-nil : (c : ChannelAccount) (rest : Accounts) → dedupe_by_id [] (c ∷ rest) ≢ []
unfolding dedupe_by_id
dedupe-ne-nil c rest e = cc

Resolves-deduped :
    (candidates kept : Accounts)
    → keep is_usable candidates ≡ kept
    → Resolves candidates (deduped (some_target kept))
Resolves-deduped candidates [] e = (refl, none_kept candidates e)
Resolves-deduped candidates (c ∷ rest) e = record {
  some_target = dedupe-ne-nil c rest;
  usable =
      All-dedupe_by_id (λ d. is_usable d ≡ true) [] (c ∷ rest)
        (subst (All (λ d. is_usable d ≡ true)) e (keep-IsKept is_usable candidates));
  of_candidates =
      All-dedupe_by_id (λ d. Mem d candidates) [] (c ∷ rest)
        (subst (All (λ d. Mem d candidates)) e (
          All-keep (λ d. Mem d candidates) is_usable candidates
            (All-Mem candidates candidates (λ d m. m))));
  distinct = dedupe_by_id-IsDistinct [] (c ∷ rest);
  complete =
      All-unkeep (λ d. has_id d.id (dedupe_by_id [] (c ∷ rest)) ≡ true) candidates
        (subst (All (λ d. has_id d.id (dedupe_by_id [] (c ∷ rest)) ≡ true)) (sym e)
          (dedupe_by_id-IsCovered [] (c ∷ rest)));
}

-- The targets are candidates that are connected and can publish, there is at least one, no channel
-- is among them twice, and each such candidate is one of them by its id; it is a conflict exactly
-- if no candidate is connected and can publish.
pub resolve_targets-Resolves :
    (content : Audience) (override_ids : List String) (accounts : Accounts)
    → Resolves
        (candidate_rows content override_ids accounts)
        (resolve_targets content override_ids accounts)
unfolding resolve_targets
resolve_targets-Resolves content override_ids accounts =
    Resolves-deduped (candidate_rows content override_ids accounts) _ refl
