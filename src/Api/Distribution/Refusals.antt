-- ===== src/Api/Distribution/Refusals.antt =====
-- The distributions that the orchestrator refuses.
use gachinol.Prelude.{
  ◌≡◌, refl, ap, String, true, not, ◌||◌, Option, none, some, some-injective, List, Bool-cases, inl,
  inr, ◌==◌, if◌then◌else◌,
}
use gachinol.Shared.ContentStatus.{content_status_eq, center_approved}
use gachinol.Api.Exec.{ApiErrorCode, not_found, forbidden, conflict, Result, ok, err, ◌>>=◌}
use gachinol.Api.Users.{User, user_role_eq, center_operator, admin}
use gachinol.Api.Contents.Database.{Content, find_content}
use gachinol.Api.Contents.Workflow.Guards.{require_center_actor}
use gachinol.Api.Publications.Service.{Publication}
use gachinol.Api.Distribution.Channels.{Accounts, resolve_targets}
use gachinol.Api.Distribution.Jobs.{Desk}
use gachinol.Api.Distribution.Orchestrator.{load_row, distribute_content, distribute}
use gachinol.Api.Pipeline.System.{System, Outside, pause}

abbrev error_of : Result Accounts → Option ApiErrorCode
error_of (ok targets) = none
error_of (err e) = some e

abbrev pub refusal : Desk → System → User → List String → Option Content → Option ApiErrorCode
refusal desk s u ids none = some not_found
refusal desk s u ids (some c) =
    if not (u.role == center_operator || u.role == admin)
    then some forbidden
    else if not (c.status == center_approved)
    then some conflict
    else error_of (resolve_targets (desk.audience c.id) ids (desk.accounts s))

module _ (out : Outside) (desk : Desk) (u : User) (ids : List String) (s : System)
    (still : out.between s ≡ s) where
  abbrev Refused : ApiErrorCode → Result (List Publication) × System → Type 0
  Refused e answer = answer ≡ (err e, s)

  same_error : {a b : ApiErrorCode} → some a ≡ some b → Refused b (err a, s)
  same_error h = ap (λ x. (err x, s)) (some-injective _ _ h)

  no_targets :
      (c : Content) (e : ApiErrorCode) (targets : Result Accounts)
      → resolve_targets (desk.audience c.id) ids (desk.accounts s) ≡ targets
      → (u.role == center_operator || u.role == admin) ≡ true
      → (c.status == center_approved) ≡ true
      → error_of targets ≡ some e
      → Refused e (distribute_content out desk c u ids s)
  unfolding require_center_actor ◌>>=◌ pause
  no_targets c e (ok targets) found center approved h = cc
  no_targets c e (err e') found center approved h =
      rw (center, approved, still, found) (same_error h)

  content-Refused :
      (c : Content) (e : ApiErrorCode)
      → refusal desk s u ids (some c) ≡ some e
      → Refused e (distribute_content out desk c u ids s)
  unfolding require_center_actor ◌>>=◌
  content-Refused c e h = elim (Bool-cases (u.role == center_operator || u.role == admin)) [
    | inr other ↦ rw other (same_error (rw other at h))
    | inl center ↦ elim (Bool-cases (c.status == center_approved)) [
      | inr early ↦ rw (center, early) (same_error (rw (center, early) at h))
      | inl approved ↦ no_targets c e _ refl center approved (rw (center, approved) at h)
    ]
  ]

  distribute-Refused :
      (id : String) (e : ApiErrorCode) (o : Option Content)
      → find_content id s.db ≡ o
      → refusal desk s u ids o ≡ some e
      → Refused e (distribute out desk id u ids s)
  unfolding distribute load_row ◌>>=◌ pause
  distribute-Refused id e none found h = rw (still, found) (same_error h)
  distribute-Refused id e (some c) found h = rw (still, found) (content-Refused c e h)

-- A distribution of a content that is not there, by a caller who is not of the center, of a content
-- that is not approved by the center, or without a usable channel answers the error of the first of
-- these that holds and writes nothing, if nothing else runs at its start.
pub distribute-refusal :
    (out : Outside) (desk : Desk) (id : String) (u : User) (ids : List String) (s : System)
    (e : ApiErrorCode)
    → out.between s ≡ s
    → refusal desk s u ids (find_content id s.db) ≡ some e
    → distribute out desk id u ids s ≡ (err e, s)
distribute-refusal out desk id u ids s e still h =
    distribute-Refused out desk u ids s still id e (find_content id s.db) refl h
