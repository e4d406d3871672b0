-- ===== src/Api/Publications/Laws.antt =====
-- A request creates one row.
use gachinol.Prelude.{
  ◌≡◌, refl, sym, String, Bool, true, Option, none, some, [], ◌∷◌, ◌++◌, string_eq, option_eq,
  Bool-cases, inl, inr, eq_self,
}
use mathlib.Core.Option.{none-ne-some}
use gachinol.Shared.PublicationStatus.{publication_status_eq}
use gachinol.Api.Publications.Service.{
  Publication, Table, CreateQueuedParams, is_active_for, find_first, queued_row, create_queued,
}

find_first-append :
    (p : Publication → Bool) (r : Publication) (rows : Table)
    → find_first p rows ≡ none
    → p r ≡ true
    → find_first p (rows ++ r ∷ []) ≡ some r
find_first-append p r [] h k = rw k refl
find_first-append p r (x ∷ rest) h k = elim (Bool-cases (p x)) [
  | inl hit ↦ elim (none-ne-some _ (sym (rw hit at h))) [ ]
  | inr miss ↦ rw miss (find_first-append p r rest (rw miss at h) k)
]

queued_row-active :
    (new_id : String) (p : CreateQueuedParams) → is_active_for p (queued_row new_id p) ≡ true
queued_row-active new_id p = rw (eq_self p.content_id, eq_self p.channel_account_id) refl

-- Right after `createQueued` a second call for the same content and channel answers the same row
-- and creates none.
pub create_queued-once :
    (new_id other_id : String) (p : CreateQueuedParams) (rows : Table)
    → create_queued other_id p (create_queued new_id p rows).1 ≡ create_queued new_id p rows
unfolding create_queued
create_queued-once new_id other_id p rows = go (find_first (is_active_for p) rows) refl
  where
    go :
        (o : Option Publication)
        → find_first (is_active_for p) rows ≡ o
        → create_queued other_id p (create_queued new_id p rows).1 ≡ create_queued new_id p rows
    go (some r) e = rw (e, e) refl
    go none e =
        rw
          (
            e,
            find_first-append (is_active_for p) (queued_row new_id p) rows e
                (queued_row-active new_id p),
          )
          refl
