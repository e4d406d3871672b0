-- ===== src/Api/Contents/Workflow/Release.antt =====
-- `publishedAt`: when it is set, and that it is set once.
use gachinol.Prelude.{
  ℕ, ◌≡◌, refl, sym, ap, subst, ◌∙◌, some-injective, inl, inr, String, Bool, true, false, ◌&&◌,
  ◌||◌, Option, none, some, ◌==◌, string_eq, option_eq, number_eq, ◌⊎◌, eq_of_test, arith,
  Bool-cases, if◌then◌else◌,
}
use gachinol.Shared.ContentStatus.{
  ContentStatus, content_status_eq, published, archived, can_transition_content,
}
use gachinol.Api.Exec.Guarantee.{Preorder}
use gachinol.Api.Contents.Database.{ContentColumns, Content, TransitionActor, Db, write_row}
use gachinol.Api.Contents.Workflow.Hop.{
  Mutate, nothing, approval, failure, HopOpts, hop_data, apply_hop,
}
use gachinol.Api.Contents.Workflow.HopLaws.{Applied}
use gachinol.Api.Contents.Workflow.Discipline.{Checked}

-- The statuses of what has been on air.
abbrev pub is_released : ContentStatus → Bool
is_released s = s == published || s == archived

release_edge :
    (from to : ContentStatus)
    → can_transition_content from to ≡ true
    → (to == published) ≡ false
    → is_released to ≡ is_released from
unfolding can_transition_content
release_edge from to h n = ground arith

publish_edge :
    (from to : ContentStatus)
    → can_transition_content from to ≡ true
    → (to == published) ≡ true
    → is_released from ≡ false
unfolding can_transition_content
publish_edge from to h n = ground arith

-- A content has a publication time exactly while it is published or archived.
abbrev is_set : Option ℕ → Bool
is_set none = false
is_set (some at) = true

abbrev pub Dated : ContentColumns → Type 0
Dated r = is_set r.published_at ≡ is_released r.status

abbrev pub AllDated : Db → Type 0
AllDated s = (id : String) (r : ContentColumns) → s.contents id ≡ some r → Dated r

-- From `s` to `t` no publication time has been lost or changed.
abbrev pub KeepsDates : Db → Db → Type 0
KeepsDates s t =
    (id : String) (r : ContentColumns) (at : ℕ)
    → s.contents id ≡ some r
    → r.published_at ≡ some at
    → (r' : ContentColumns) × (t.contents id ≡ some r') × (r'.published_at ≡ some at)

abbrev pub DatedOnce : Db → Db → Type 0
DatedOnce s t = AllDated s → AllDated t × KeepsDates s t

pub DatedOnce-order : Preorder DatedOnce
DatedOnce-order = record {
  reflexive = λ s inv. (inv, λ id r at found e. (r, found, e));
  transitive = λ s t u a b inv.
      let (inv', first) = a inv in
      let (inv'', second) = b inv' in
      (
        inv'',
        λ id r at found e.
            let (r', found', e') = first id r at found e in second id r' at found' e',
      );
}

-- What the caller of a hop knows of the row that it has loaded.
abbrev pub LoadedDated : Content → Db → Type 0
LoadedDated c s = Dated c.columns

-- The row that a hop writes.
hop_data-dates :
    (c : Content) (to : ContentStatus) (m : Mutate) (now : ℕ) (r : ContentColumns)
    → ((hop_data c to m now r).status ≡ to)
      × ((hop_data c to m now r).published_at
          ≡ (if to == published && c.published_at == none then some now else r.published_at))
unfolding hop_data
hop_data-dates c to nothing now r = (refl, refl)
hop_data-dates c to (approval u at) now r = (refl, refl)
hop_data-dates c to (failure e at) now r = (refl, refl)

unset : (o : Option ℕ) → is_set o ≡ false → o ≡ none
unset none h = refl
unset (some at) h = cc

module _ (c : Content) (from to : ContentStatus) (actor : TransitionActor) (r : ContentColumns)
    (k : Checked c from to actor) (loaded : Dated c.columns) (dated : Dated r)
    (st : r.status ≡ from) where
  -- Either the time is kept and the statuses agree on whether there is one, or the content goes
  -- on air and had none.
  hop_dates :
      (now : ℕ)
      → ((if to == published && c.published_at == none then some now else r.published_at)
            ≡ r.published_at)
          × (is_released to ≡ is_released from)
        ⊎ ((if to == published && c.published_at == none then some now else r.published_at)
            ≡ some now)
          × (is_released to ≡ true)
          × (r.published_at ≡ none)
  hop_dates now = elim (Bool-cases (to == published)) [
    | inl airs ↦
        let off_air = publish_edge from to k.on_map airs in
        let none_loaded = unset c.published_at (
          loaded ∙ ap is_released (sym (k.from_loaded (eq_of_test to published airs))) ∙ off_air) in
        let none_now = unset r.published_at (dated ∙ ap is_released st ∙ off_air) in
        inr (rw (airs, none_loaded) refl, rw (eq_of_test to published airs) refl, none_now)
    | inr not_yet ↦ inl (rw not_yet refl, release_edge from to k.on_map not_yet)
  ]

  hop-Dated : (m : Mutate) (now : ℕ) → Dated (hop_data c to m now r)
  hop-Dated m now =
      let (to_status, to_date) = hop_data-dates c to m now r in
      elim (hop_dates now) [
        | inl (keeps, same) ↦
            ap is_set (to_date ∙ keeps)
            ∙ dated
            ∙ ap is_released (st)
            ∙ sym same
            ∙ ap is_released (sym to_status)
        | inr (sets, airs, unset_before) ↦
            ap is_set (to_date ∙ sets) ∙ sym airs ∙ ap is_released (sym to_status)
      ]

  hop-keeps :
      (m : Mutate) (now at : ℕ)
      → r.published_at ≡ some at
      → (hop_data c to m now r).published_at ≡ some at
  hop-keeps m now at e =
      let (to_status, to_date) = hop_data-dates c to m now r in
      elim (hop_dates now) [
        | inl (keeps, same) ↦ to_date ∙ keeps ∙ e
        | inr (sets, airs, unset_before) ↦ cc
      ]

pub write_row-Dated :
    (id : String) (r : ContentColumns) (s : Db)
    → Dated r
    → AllDated s
    → (k : String) (r' : ContentColumns) → write_row id r s.contents k ≡ some r'
    → Dated r'
write_row-Dated id r s h inv k r' found = elim (Bool-cases (id == k)) [
  | inl same ↦ subst Dated (some-injective _ _ (rw same at found)) h
  | inr other ↦ inv k r' (rw other at found)
]

pub hop-DatedOnce :
    (c : Content) (from to : ContentStatus) (actor : TransitionActor) (opts : HopOpts)
    (idempotent : Bool) (s : Db)
    → Checked c from to actor
    → Dated c.columns
    → Applied c from to actor opts idempotent s
    → DatedOnce s (apply_hop c from to actor opts idempotent s).1
hop-DatedOnce c from to actor opts idempotent s k loaded a inv =
    let dated = inv c.id a.row a.row_found in
    rw a.result (
      (
        write_row-Dated c.id _ s
            (hop-Dated c from to actor a.row k loaded dated a.row_status opts.mutate s.clock) inv,
        λ id r at found e. elim (Bool-cases (c.id == id)) [
          | inl same ↦
              let this_row =
                some-injective _ _
                  (sym a.row_found ∙ ap s.contents (eq_of_test c.id id same) ∙ found) in
              (
                hop_data c to opts.mutate s.clock a.row,
                rw same refl,
                hop-keeps c from to actor a.row k loaded dated a.row_status opts.mutate s.clock at
                    (ap (λ x. x.published_at) this_row ∙ e),
              )
          | inr other ↦ (r, rw other found, e)
        ],
      ))
