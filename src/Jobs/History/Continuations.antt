-- ===== src/Jobs/History/Continuations.antt =====
-- The retry and the resumption of a job make progress.
use pruebas_personalizadas.Prelude.Common.{
  ℕ, ◌≤◌, ◌<◌, ◌≡◌, refl, sym, ap, String, Option, none, some, false, not, inl, inr, arith,
}
use pruebas_personalizadas.Prelude.Tests.{if◌then◌else◌, Bool-cases, Option-cases, leb→lt}
use pruebas_personalizadas.Prelude.Eq.{◌==◌, string_eq, option_eq}
use pruebas_personalizadas.Prelude.Result.{
  ok, err, >>=-eq-ok, >>-eq-ok, reject->>-eq-ok, ok-injective,
}
use pruebas_personalizadas.Prelude.Rows.{Each}
use pruebas_personalizadas.Jobs.Tables.{
  RepositoryError, run_status_eq, control_state_eq, FailureClass, JobKind, job_kind_eq, JobRow,
  Database, job_row, submission_row, activity_row,
}
use pruebas_personalizadas.Jobs.Queue.{Step, add_job}
use pruebas_personalizadas.Jobs.Cancel.{lock_job}
use pruebas_personalizadas.Jobs.Continue.{
  Continuation, as_conflict, is_out_of_range, last_failed_run, check_retry, check_resume,
  resulting_row, effective_max, activate_resulting_submission_job, mark_failed_stage, retry_source,
  resume_source, schedule_job_retry, schedule_job_resume,
}
use pruebas_personalizadas.Jobs.History.Change.{Reports, at_most, IsSound}
use pruebas_personalizadas.Jobs.History.Audit.{Progress, Progress-trans}
use pruebas_personalizadas.Jobs.History.Steps.{Progress-same, add_job-Progress, lock_job-mem}
use pruebas_personalizadas.Jobs.History.Cancellations.{add_control-Progress}

pub as_conflict-eq-ok :
    {A : Type 0} (message : String) (m : Step A) {a : A} → as_conflict message m ≡ ok a → m ≡ ok a
unfolding as_conflict
as_conflict-eq-ok message (ok a) h = h
as_conflict-eq-ok message (err RepositoryError.integrity_error) h = cc
as_conflict-eq-ok message (err (RepositoryError.not_found m)) h = cc
as_conflict-eq-ok message (err (RepositoryError.conflict m)) h = cc
as_conflict-eq-ok message (err (RepositoryError.value_error m)) h = cc

module _ {F : Type 0} where
  pub activate_resulting_submission_job-same :
      (source result : JobRow F) (now : ℕ) (db : Database F) {after : Database F}
      → activate_resulting_submission_job source result now db ≡ ok after
      → (after.jobs ≡ db.jobs) × (after.controls ≡ db.controls)
  unfolding activate_resulting_submission_job
  activate_resulting_submission_job-same source result now db h =
      elim (Bool-cases (not (source.kind == JobKind.submission))) [
        | inl t ↦
            let e = sym (ok-injective (rw (t, if◌then◌else◌) at h)) in
            (ap (λ (x : Database F). x.jobs) e, ap (λ (x : Database F). x.controls) e)
        | inr f ↦
            let (submission, _, k) = >>=-eq-ok _ _ (rw (f, if◌then◌else◌) at h) in
            let e = sym (ok-injective k) in
            (ap (λ (x : Database F). x.jobs) e, ap (λ (x : Database F). x.controls) e)
      ]

  pub mark_failed_stage-same :
      (c : FailureClass) (request : Continuation) (source : JobRow F) (db : Database F)
      → ((mark_failed_stage c request source db).jobs ≡ db.jobs)
        × ((mark_failed_stage c request source db).controls ≡ db.controls)
  unfolding mark_failed_stage
  mark_failed_stage-same c request source db =
      elim (Option-cases (last_failed_run request.resume_from_stage source db)) [
        | inl n ↦ rw (n, mark_failed_stage) (refl, refl)
        | inr (run, e) ↦ rw (e, mark_failed_stage) (refl, refl)
      ]

  resulting_row-IsSound :
      {r : Reports}
      → (now : ℕ) (request : Continuation) (limit : ℕ) (source : JobRow F) → source.attempt < limit
      → limit ≤ 10
      → IsSound r (resulting_row now request limit source)
  unfolding resulting_row
  resulting_row-IsSound now request limit source lt few = record {
    used = at_most _ _ _ (omega (arith, lt));
    some_attempt = omega (arith, lt);
    few_attempts = few;
    projected = refl;
  }

  -- A limit in range, or the one of the source.
  effective_max_le :
      (limit : Option ℕ) (source : JobRow F)
      → is_out_of_range limit ≡ false
      → source.max_attempts ≤ 10
      → effective_max limit source ≤ 10
  effective_max_le none source r few = few
  effective_max_le (some n) source r few = ground arith

  same_tables :
      {r : Reports}
      → (before after : Database F)
      → (after.jobs ≡ before.jobs) × (after.controls ≡ before.controls)
      → Progress r before after
  same_tables before after (p, q) = Progress-same p q

  retry_source-Progress :
      {r : Reports}
      → (c : FailureClass) (limit : Option ℕ) (request : Continuation) (now : ℕ) (source : JobRow F)
        (db : Database F) {after : Database F}
      → effective_max limit source ≤ 10
      → retry_source c limit request now source db ≡ ok after
      → Progress r db after
  unfolding retry_source check_retry
  retry_source-Progress c limit request now source db few h =
      let ((_, g), h1) = >>-eq-ok _ _ h in
      let (_, g1) = reject->>-eq-ok _ _ _ g in
      let (_, g2) = reject->>-eq-ok _ _ _ g1 in
      let (_, g3) = reject->>-eq-ok _ _ _ g2 in
      let (room, _) = reject->>-eq-ok _ _ _ g3 in
      let result = resulting_row now request (effective_max limit source) source in
      let (added, a, h2) = >>=-eq-ok (add_job result db) _ h1 in
      let (activated, b, h3) =
        >>=-eq-ok (activate_resulting_submission_job source result now added) _ h2 in
      let (control, made, h4) = >>=-eq-ok _ _ h3 in
      let s =
        resulting_row-IsSound now request (effective_max limit source) source (leb→lt _ _ room)
          few in
      Progress-trans (add_job-Progress _ _ a s) (
        Progress-trans
          (same_tables added activated
            (activate_resulting_submission_job-same source result now added b))
          (Progress-trans
            (same_tables activated _ (mark_failed_stage-same c request source activated))
            (add_control-Progress _ _ made h4)))

  resume_source-Progress :
      {r : Reports}
      → (request : Continuation) (now : ℕ) (source : JobRow F) (db : Database F)
        {after : Database F}
      → source.max_attempts ≤ 10
      → resume_source request now source db ≡ ok after
      → Progress r db after
  unfolding resume_source check_resume
  resume_source-Progress request now source db few h =
      let ((_, g), h1) = >>-eq-ok _ _ h in
      let (_, g1) = reject->>-eq-ok _ _ _ g in
      let (_, g2) = reject->>-eq-ok _ _ _ g1 in
      let (_, g3) = reject->>-eq-ok _ _ _ g2 in
      let (room, _) = reject->>-eq-ok _ _ _ g3 in
      let result = resulting_row now request source.max_attempts source in
      let (added, a, h2) = >>=-eq-ok (add_job result db) _ h1 in
      let (activated, b, h3) =
        >>=-eq-ok (activate_resulting_submission_job source result now added) _ h2 in
      let (control, made, h4) = >>=-eq-ok _ _ h3 in
      let s = resulting_row-IsSound now request source.max_attempts source (leb→lt _ _ room) few in
      Progress-trans (add_job-Progress _ _ a s) (
        Progress-trans
          (same_tables added activated
            (activate_resulting_submission_job-same source result now added b))
          (add_control-Progress _ _ made h4))

  pub schedule_job_retry-Progress :
      {r : Reports}
      → (job_id tenant_id : String) (c : FailureClass) (limit : Option ℕ) (request : Continuation)
        (now : ℕ) (db : Database F) {after : Database F}
      → Each (IsSound r) db.jobs
      → schedule_job_retry job_id tenant_id c limit request now db ≡ ok after
      → Progress r db after
  unfolding schedule_job_retry
  schedule_job_retry-Progress job_id tenant_id c limit request now db sound h =
      let (_, h1) = reject->>-eq-ok _ _ _ h in
      let (_, h2) = reject->>-eq-ok _ _ _ h1 in
      let (range, h3) = reject->>-eq-ok _ _ _ h2 in
      let (source, l, h4) = >>=-eq-ok (lock_job job_id tenant_id db) _ (as_conflict-eq-ok _ _ h3) in
      let s = sound source (lock_job-mem job_id tenant_id db l).0 in
      retry_source-Progress c limit request now source db
        (effective_max_le limit source range s.few_attempts) h4

  pub schedule_job_resume-Progress :
      {r : Reports}
      → (job_id tenant_id : String) (request : Continuation) (now : ℕ) (db : Database F)
        {after : Database F}
      → Each (IsSound r) db.jobs
      → schedule_job_resume job_id tenant_id request now db ≡ ok after
      → Progress r db after
  unfolding schedule_job_resume
  schedule_job_resume-Progress job_id tenant_id request now db sound h =
      let (_, h1) = reject->>-eq-ok _ _ _ h in
      let (source, l, h2) = >>=-eq-ok (lock_job job_id tenant_id db) _ (as_conflict-eq-ok _ _ h1) in
      let s = sound source (lock_job-mem job_id tenant_id db l).0 in
      resume_source-Progress request now source db s.few_attempts h2
