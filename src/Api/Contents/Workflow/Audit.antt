-- ===== src/Api/Contents/Workflow/Audit.antt =====
-- Everything that happens to contents is in the audit log, and every log row is a legal transition.
use gachinol.Prelude.{
  ◌≡◌, ◌≢◌, refl, sym, ap, ◌∙◌, String, true, Option, none, some, List, [], ◌∷◌, ◌++◌, All,
  All-append, string_eq, includes,
}
use mathlib.Core.List.{append_assoc, append-nil}
use gachinol.Shared.ContentStatus.{
  content_status_eq, preview_generating, awaiting_reporter_review, awaiting_center_review, uploaded,
  processing, can_transition_content,
}
use gachinol.Shared.ResidentUploadStatus.{approved}
use gachinol.Api.Exec.Guarantee.{Preorder}
use gachinol.Api.Users.{User, reporter}
use gachinol.Api.Contents.Database.{
  ContentOrigin, reporter_upload, resident_link, ContentColumns, user, TransitionLog, Db,
}
use gachinol.Api.Contents.Workflow.Guards.{reporter_review_decisions}
use gachinol.Api.Contents.Workflow.Trail.{view_of, Trail, Trail-append}

-- Where a content comes from and whose it is; no transition changes that.
pub record Identity : Type 0 where
  pub origin : ContentOrigin
  pub reporter_id : Option String

abbrev pub identity_row : Option ContentColumns → Option Identity
identity_row none = none
identity_row (some r) = some (record { origin = r.origin; reporter_id = r.reporter_id })

abbrev pub identity_of : Db → String → Option Identity
identity_of s id = identity_row (s.contents id)

-- The rules for one log row, given whose content it is and the state of its review.
pub record Legal (who : Identity) (s : Db) (l : TransitionLog) : Type 0 where
  pub on_map : can_transition_content l.from_status l.to_status ≡ true
  pub to_reporter :
      l.from_status ≡ preview_generating
      → l.to_status ≡ awaiting_reporter_review
      → who.origin ≡ reporter_upload
  pub to_center :
      l.from_status ≡ preview_generating
      → l.to_status ≡ awaiting_center_review
      → who.origin ≢ reporter_upload
  pub by_owner :
      (u : User)
      → l.from_status ≡ awaiting_reporter_review
      → includes reporter_review_decisions l.to_status ≡ true
      → l.actor ≡ user u
      → (u.role ≡ reporter) × (who.reporter_id ≡ some u.id)
  pub reviewed :
      l.from_status ≡ uploaded
      → l.to_status ≡ processing
      → who.origin ≡ resident_link
      → s.resident_uploads l.entity_id ≡ some approved

abbrev pub LogOk : Db → TransitionLog → Type 0
LogOk s l = (who : Identity) × (identity_of s l.entity_id ≡ some who) × Legal who s l

-- From `s` to `t` only what the new log rows say has happened.
pub record Audited (s t : Db) : Type 0 where
  pub fresh : List TransitionLog
  pub logged : t.logs ≡ s.logs ++ fresh
  pub trail : (id : String) → Trail id (view_of s id) fresh (view_of t id)
  pub legal : All (LogOk t) fresh
  pub same_identity : (id : String) → identity_of t id ≡ identity_of s id
  pub stays_approved :
      (id : String) → s.resident_uploads id ≡ some approved → t.resident_uploads id ≡ some approved

Legal-later :
    {who : Identity} {s t : Db} {l : TransitionLog} → Audited s t → Legal who s l → Legal who t l
Legal-later {l = l} a h = record {
  on_map = h.on_map;
  to_reporter = h.to_reporter;
  to_center = h.to_center;
  by_owner = h.by_owner;
  reviewed = λ p q o. a.stays_approved l.entity_id (h.reviewed p q o);
}

LogOk-later :
    (s t : Db) (ls : List TransitionLog) → Audited s t → All (LogOk s) ls → All (LogOk t) ls
LogOk-later s t [] a h = tt
LogOk-later s t (l ∷ ls) a ((who, e, ok_), h) =
    ((who, a.same_identity l.entity_id ∙ e, Legal-later a ok_), LogOk-later s t ls a h)

pub Audited-order : Preorder Audited
Audited-order = record {
  reflexive = λ s. record {
    fresh = [];
    logged = sym (append-nil s.logs);
    trail = λ id. Trail.done;
    legal = tt;
    same_identity = λ id. refl;
    stays_approved = λ id h. h;
  };
  transitive = λ s t u a b. record {
    fresh = a.fresh ++ b.fresh;
    logged = b.logged ∙ ap (λ x. x ++ b.fresh) a.logged ∙ append_assoc s.logs a.fresh b.fresh;
    trail = λ id. Trail-append a.fresh b.fresh (a.trail id) (b.trail id);
    legal = All-append (LogOk u) a.fresh b.fresh (LogOk-later t u a.fresh b a.legal) b.legal;
    same_identity = λ id. b.same_identity id ∙ a.same_identity id;
    stays_approved = λ id h. b.stays_approved id (a.stays_approved id h);
  };
}
