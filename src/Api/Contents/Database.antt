-- ===== src/Api/Contents/Database.antt =====
-- The tables that content transitions read and write (services/api/prisma/schema.prisma), with
-- packages/shared/src/content/content.ts and packages/shared/src/audit/transition-log.ts.
-- A table is a function of its primary key; the columns are those that the modelled code uses.
-- The ids that the uuid package gives to log rows and revision requests are left out: no modelled
-- code reads them.
use gachinol.Prelude.{
  ℕ, ◌≡◌, refl, sym, ap, some-injective, String, Option, none, some, List, [], ◌∷◌, ◌++◌, get_elem?,
  Eq, Enum, eq_of_enum, ◌==◌, string_eq, if◌then◌else◌,
}
use gachinol.Shared.ContentStatus.{ContentStatus, content_status_eq, ReviewPolicy}
use gachinol.Shared.ResidentUploadStatus.{ResidentUploadStatus}
use gachinol.Api.Exec.{Exec, ok}
use gachinol.Api.Users.{User, UserRole}

-- UTF-16 code units, which `slice` counts.
abbrev pub Text : Type 0
Text = List ℕ

pub data ContentOrigin : Type 0 where
  reporter_upload live_vod resident_link : ContentOrigin

abbrev origin_index : ContentOrigin → ℕ
origin_index reporter_upload = 0
origin_index live_vod = 1
origin_index resident_link = 2

abbrev content_origins : List ContentOrigin
content_origins = reporter_upload ∷ live_vod ∷ resident_link ∷ []

pub origin_index_lem : (o : ContentOrigin) → get_elem? content_origins (origin_index o) ≡ some o
origin_index_lem reporter_upload = refl
origin_index_lem _ = refl

abbrev pub origin_enum : Enum ContentOrigin
origin_enum = record {
  values = content_origins;
  index = origin_index;
  index_lem = origin_index_lem;
}

instance abbrev pub content_origin_eq : Eq ContentOrigin
content_origin_eq = eq_of_enum origin_enum

pub data ContentPriority : Type 0 where
  normal urgent : ContentPriority

-- A row of `contents`, but for its key.
pub record ContentColumns : Type 0 where
  pub status : ContentStatus
  pub origin : ContentOrigin
  pub reporter_id : Option String
  pub priority : ContentPriority
  pub review_policy : ReviewPolicy
  pub generation : ℕ
  pub approved_by_user_id : Option String
  pub approved_at : Option ℕ
  pub published_at : Option ℕ
  pub last_error : Option (Text × ℕ)
  pub duration_sec : Option ℕ

pub record Content : Type 0 where
  pub id : String
  pub columns : ContentColumns
  pub open columns use *

-- Who makes a transition; a system actor may carry the job that caused it.
pub data TransitionActor : Type 0 where
  user : User → TransitionActor
  system : Option String → TransitionActor

-- A row of `status_transition_logs` with `entityType = 'content'`.
pub record TransitionLog : Type 0 where
  pub entity_id : String
  pub from_status : ContentStatus
  pub to_status : ContentStatus
  pub actor : TransitionActor
  pub note : Option Text
  pub at : ℕ

-- A row of `revision_requests` with `targetKind = 'content'`.
pub record RevisionRequest : Type 0 where
  pub content_id : String
  pub requested_by_user_id : String
  pub requester_role : UserRole
  pub message : Text
  pub resolved_at : Option ℕ
  pub resolved_by_job_id : Option String

pub record Db : Type 0 where
  pub contents : String → Option ContentColumns
  pub resident_uploads : String → Option ResidentUploadStatus  -- by content id, which is unique
  pub revision_requests : List RevisionRequest
  pub logs : List TransitionLog
  pub clock : ℕ  -- what `new Date()` reads

abbrev with_key : String → Option ContentColumns → Option Content
with_key k none = none
with_key k (some r) = some (record { id = k; columns = r })

-- `content.findUnique({ where: { id } })`
abbrev pub find_content : String → Db → Option Content
find_content id db = with_key id (db.contents id)

abbrev pub write_row :
    String → ContentColumns → (String → Option ContentColumns) → String → Option ContentColumns
write_row id r table k = if id == k then some r else table k

abbrev cas_row :
    String → ContentStatus → (ContentColumns → ContentColumns) → Db → Option ContentColumns → ℕ × Db
cas_row id from change db none = (0, db)
cas_row id from change db (some r) =
    if r.status == from
    then (1, record db { contents = write_row id (change r) db.contents })
    else (0, db)

-- `content.updateMany({ where: { id, status: from }, data })`, and the number of rows it changed.
unfoldable pub update_content :
    String → ContentStatus → (ContentColumns → ContentColumns) → Exec Db ℕ
update_content id from change db =
    let (count, db') = cas_row id from change db (db.contents id) in (ok count, db')

-- `statusTransitionLog.create`
unfoldable pub create_log : TransitionLog → Exec Db (Unit {0})
create_log row db = (ok tt, record db { logs = db.logs ++ row ∷ [] })

with_key_lem :
    (id : String) (c : Content) (o : Option ContentColumns)
    → with_key id o ≡ some c
    → (c.id ≡ id) × (o ≡ some c.columns)
with_key_lem id c none e = cc
with_key_lem id c (some r) e =
    (sym (ap (λ x. x.id) (some-injective _ _ e)), ap (λ x. some x.columns) (some-injective _ _ e))

pub find_content_lem :
    (id : String) (c : Content) (s : Db)
    → find_content id s ≡ some c
    → (c.id ≡ id) × (s.contents id ≡ some c.columns)
find_content_lem id c s e = with_key_lem id c (s.contents id) e
