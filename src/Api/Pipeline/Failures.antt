-- ===== src/Api/Pipeline/Failures.antt =====
-- A transcoding that fails.
use gachinol.Prelude.{◌≤◌, ◌<◌, arith, number_eq}
use gachinol.Api.Pipeline.Media.{Attempts, allowed_or_one}
use gachinol.Prelude.{ℕ, ◌≡◌, ◌≢◌, refl, ◌⊎◌, inl, inr, String, Bool, true, false, some, take}
use gachinol.Shared.ContentStatus.{
  ContentStatus, content_status_eq, uploaded, processing, processing_failed, can_transition_content,
}
use gachinol.Shared.ResidentUploadStatus.{approved}
use gachinol.Api.Exec.{Exec, Result, ok, err, continue, pure, ◌>>=◌, ◌>>◌}
use gachinol.Api.Contents.Database.{Text, resident_link, ContentColumns, Db}
use gachinol.Api.Contents.Workflow.Guards.{policy_guard}
use gachinol.Api.Contents.Workflow.Hop.{HopOpts, no_opts, hop_data}
use gachinol.Api.Media.Keys.{transcode}
use gachinol.Api.Pipeline.System.{System, Outside, system_hop}
use gachinol.Api.Pipeline.Media.{
  FailedJob, is_exhausted, reason_or, last_error_note, last_error_mutate, on_exhausted, on_failed,
}
use gachinol.Api.Pipeline.Quiet.{Quiet, system_hop-past, system_hop-lands}
use gachinol.Api.Pipeline.Outcomes.{writes}

-- The content has failed for this reason at this time.
abbrev pub FailedFor : String → Text → ℕ → Db → Type 0
FailedFor id reason now t =
    (r : ContentColumns) × (t.contents id ≡ some r)
    × (r.status ≡ processing_failed)
    × (r.last_error ≡ some (take 500 reason, now))

-- What a failed transcoding leads to; `s` is the state before.
pub record TranscodeFailed (out : Outside) (job : FailedJob) (s : System)
    (end : Result (Unit {0}) × System) : Type 0 where
  pub repeats : job.attempts.made < allowed_or_one job.attempts.allowed → end ≡ (ok tt, s)
  pub gives_up :
      allowed_or_one job.attempts.allowed ≤ job.attempts.made
      → FailedFor job.content_id
          (reason_or out.texts.unknown_failure job.attempts.failed_reason)
          s.db.clock
          end.1.db

module _ {out : Outside} (q : Quiet out) (id job : String) (reason : Text) (now : ℕ) where
  abbrev note : HopOpts
  note = last_error_note reason now

  to_failure :
      (s : System) (r : ContentColumns)
      → s.db.contents id ≡ some r
      → r.status ≡ processing
      → FailedFor id reason now
          ((do system_hop out id processing processing_failed job note; pure (tt {0})) s).1.db
  unfolding policy_guard can_transition_content hop_data last_error_note
  to_failure s r found st = (
    _,
    writes q id job s r found processing processing_failed note st
        (record { on_map = refl; by_policy = refl; gate = λ e. cc }),
    refl,
    refl,
  )

  after_hop :
      (P : Db → Type 0) (rest : Exec System (Unit {0})) (o : Result Bool × System)
      → o.0 ≡ ok true
      → P (rest o.1).1.db
      → P (continue (λ _. rest) o).1.db
  after_hop P rest (ok b, t) e h = h
  after_hop P rest (err x, t) e h = cc

  abbrev last_hop : Exec System (Unit {0})
  last_hop = do system_hop out id processing processing_failed job note; pure tt

  abbrev GivesUp : System → Type 0
  GivesUp s =
      FailedFor id reason now
        ((do system_hop out id uploaded processing job no_opts; last_hop) s).1.db

  from_uploaded :
      (s : System) (r : ContentColumns)
      → s.db.contents id ≡ some r
      → r.status ≡ uploaded
      → (r.origin ≡ resident_link → s.db.resident_uploads id ≡ some approved)
      → GivesUp s
  unfolding ◌>>=◌ policy_guard can_transition_content hop_data
  from_uploaded s r found st gate =
      let (applied, there) =
        system_hop-lands q id job processing no_opts s r found uploaded st
          (record { on_map = refl; by_policy = refl; gate = λ _ _. gate }) in
      after_hop (FailedFor id reason now) last_hop
        (system_hop out id uploaded processing job no_opts s) applied
        (to_failure (system_hop out id uploaded processing job no_opts s).1 _ there refl)

  from_processing :
      (s : System) (r : ContentColumns)
      → s.db.contents id ≡ some r
      → r.status ≡ processing
      → GivesUp s
  unfolding ◌>>=◌
  from_processing s r found st =
      rw (system_hop-past q id job processing no_opts s r found uploaded (not_uploaded r.status st))
        (to_failure s r found st)
    where
      not_uploaded : (x : ContentStatus) → x ≡ processing → x ≢ uploaded
      not_uploaded x e f = cc

unexhausted : (a : Attempts) → a.made < allowed_or_one a.allowed → is_exhausted a ≡ false
unfolding is_exhausted
unexhausted a h = ground (arith, h)

exhausted : (a : Attempts) → allowed_or_one a.allowed ≤ a.made → is_exhausted a ≡ true
unfolding is_exhausted
exhausted a h = ground (arith, h)

-- A failed transcoding that has attempts left changes nothing; one that has none left takes its
-- content, uploaded or in processing, to the failure with the reason, cut to 500 units, and the
-- time, if an uploaded content of a resident has been approved and nothing else runs meanwhile.
pub on_failed-TranscodeFailed :
    (out : Outside) (job : FailedJob) (s : System) (r : ContentColumns)
    → Quiet out
    → job.type ≡ transcode
    → s.db.contents job.content_id ≡ some r
    → (r.status ≡ processing)
      ⊎ ((r.status ≡ uploaded)
          × (r.origin ≡ resident_link → s.db.resident_uploads job.content_id ≡ some approved))
    → TranscodeFailed out job s (on_failed out job s)
unfolding on_failed pure last_error_mutate on_exhausted ◌>>=◌
on_failed-TranscodeFailed out job s r q type found st = record {
  repeats = λ h. rw (unexhausted job.attempts h) refl;
  gives_up = λ h.
      rw (exhausted job.attempts h, type)
        (elim st [
          | inl at_work ↦
              from_processing q job.content_id job.id reason s.db.clock s r found at_work
          | inr (waits, gate) ↦
              from_uploaded q job.content_id job.id reason s.db.clock s r found waits gate
        ]);
}
  where
    reason : Text
    reason = reason_or out.texts.unknown_failure job.attempts.failed_reason
