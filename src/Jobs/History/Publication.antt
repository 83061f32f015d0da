-- ===== src/Jobs/History/Publication.antt =====
-- The publication of an assessment makes progress, and its approval leaves the jobs alone.
use pruebas_personalizadas.Prelude.Common.{
  ℕ, ◌≡◌, refl, sym, ap, subst, String, Bool, not, inl, inr, Memᴰ, arith,
}
use pruebas_personalizadas.Prelude.Tests.{if◌then◌else◌, Bool-cases, Option-cases}
use pruebas_personalizadas.Prelude.Eq.{◌==◌, string_eq, option_eq, eq_of_not-ne}
use pruebas_personalizadas.Prelude.Result.{ok, >>=-eq-ok, reject->>-eq-ok, ok-injective}
use pruebas_personalizadas.Jobs.Tables.{
  run_status_eq, ControlState, control_state_eq, JobRow, Database, job_row, submission_row,
  activity_row,
}
use pruebas_personalizadas.Jobs.Cancel.{lock_job, complete_cancellation}
use pruebas_personalizadas.Jobs.History.Change.{Reports, at_most, Evolves-of, IsSound, Evolves}
use pruebas_personalizadas.Jobs.History.Audit.{Progress}
use pruebas_personalizadas.Jobs.History.Steps.{
  Progress-same, with_job-Progress, lock_job-mem, complete_cancellation-Progress,
}
use pruebas_personalizadas.Jobs.Documents.{AssessmentRow, GuideRow}
use pruebas_personalizadas.Jobs.Tables.{SubmissionRow}
use pruebas_personalizadas.Jobs.History.Continuations.{as_conflict-eq-ok}
use pruebas_personalizadas.Jobs.Publish.{
  published_row, yield_to_cancellation, publish, finalize_submission_assessment, write_approval,
  approve_latest, approve_assessment_atomic,
}

module _ {F : Type 0} where
  published_row-Evolves :
      {r : Reports}
      → (one : F) (now : ℕ) (job : JobRow F) → Evolves r job (published_row one now job)
  unfolding published_row
  published_row-Evolves one now job =
      Evolves-of _ _ refl (at_most _ _ _ (omega arith)) (omega arith)

  published_row-IsSound :
      {r : Reports}
      → (one : F) (now : ℕ) (job : JobRow F) → job.control_state ≡ ControlState.active
      → IsSound r job
      → IsSound r (published_row one now job)
  unfolding published_row
  published_row-IsSound one now job a s = record {
    used = s.used;
    some_attempt = s.some_attempt;
    few_attempts = s.few_attempts;
    projected = rw a refl;
  }

  publish-Progress :
      {r : Reports}
      → (one : F) (now : ℕ) (assessment : AssessmentRow) (guide : GuideRow) (job : JobRow F)
        (submission : SubmissionRow F) (db : Database F) {done : Bool} {after : Database F}
      → Memᴰ job db.jobs
      → job.control_state ≡ ControlState.active
      → publish one now assessment guide job submission db ≡ ok (done, after)
      → Progress r db after
  unfolding publish
  publish-Progress {r} one now assessment guide job submission db m a h =
      let (_, h1) = reject->>-eq-ok _ _ _ h in
      let (_, h2) = reject->>-eq-ok _ _ _ h1 in
      let p =
        with_job-Progress db m (published_row-Evolves one now job)
          (published_row-IsSound one now job a) in
      subst (λ x. Progress r db x) (ap (λ x. x.1) (ok-injective h2))
        (record { jobs = p.jobs; controls = p.controls })

  yield_to_cancellation-Progress :
      {r : Reports}
      → (now : ℕ) (job : JobRow F) (db : Database F) {done : Bool} {after : Database F}
      → Memᴰ job db.jobs
      → yield_to_cancellation now job db ≡ ok (done, after)
      → Progress r db after
  unfolding yield_to_cancellation
  yield_to_cancellation-Progress {r} now job db m h =
      elim (Bool-cases (job.control_state == ControlState.cancel_requested)) [
        | inl t ↦
            let (x, e, h1) =
              >>=-eq-ok (complete_cancellation now job db) _ (rw (t, if◌then◌else◌) at h) in
            subst (λ x. Progress r db x) (ap (λ x. x.1) (ok-injective h1))
              (complete_cancellation-Progress now job db m e)
        | inr f ↦
            subst (λ x. Progress r db x) (ap (λ x. x.1) (ok-injective (rw (f, if◌then◌else◌) at h)))
              (Progress-same refl refl)
      ]

  pub finalize_submission_assessment-Progress :
      {r : Reports}
      → (one : F) (job_id tenant_id : String) (assessment : AssessmentRow) (guide : GuideRow)
        (now : ℕ) (db : Database F) {done : Bool} {after : Database F}
      → finalize_submission_assessment one job_id tenant_id assessment guide now db
        ≡ ok (done, after)
      → Progress r db after
  unfolding finalize_submission_assessment
  finalize_submission_assessment-Progress one job_id tenant_id assessment guide now db h =
      let (_, h1) = reject->>-eq-ok _ _ _ h in
      let (job, l, h2) = >>=-eq-ok (lock_job job_id tenant_id db) _ h1 in
      let (submission, _, h3) = >>=-eq-ok _ _ h2 in
      let m = (lock_job-mem job_id tenant_id db l).0 in
      elim (Bool-cases (not (job.control_state == ControlState.active))) [
        | inl t ↦ yield_to_cancellation-Progress now job db m (rw (t, if◌then◌else◌) at h3)
        | inr f ↦
            publish-Progress one now assessment guide job submission db m (eq_of_not-ne _ _ f)
              (rw (f, if◌then◌else◌) at h3)
      ]

  write_approval-same :
      (event_id actor_id : String) (at : ℕ) (row : AssessmentRow) (submission : SubmissionRow F)
      (db : Database F) {after : Database F}
      → write_approval event_id actor_id at row submission db ≡ ok after
      → (after.jobs ≡ db.jobs) × (after.controls ≡ db.controls)
  unfolding write_approval
  write_approval-same event_id actor_id at row submission db h =
      let (_, h1) = reject->>-eq-ok _ _ _ h in
      let (_, h2) = reject->>-eq-ok _ _ _ h1 in
      let e = sym (ok-injective h2) in
      (ap (λ (x : Database F). x.jobs) e, ap (λ (x : Database F). x.controls) e)

  approve_latest-same :
      (event_id etag actor_id : String) (at : ℕ) (approved : AssessmentRow) (db : Database F)
      {after : Database F}
      → approve_latest event_id etag actor_id at approved db ≡ ok after
      → (after.jobs ≡ db.jobs) × (after.controls ≡ db.controls)
  unfolding approve_latest
  approve_latest-same event_id etag actor_id at approved db h =
      let (latest, _, h1) = >>=-eq-ok _ _ h in
      let (_, h2) = reject->>-eq-ok _ _ _ h1 in
      let (_, h3) = reject->>-eq-ok _ _ _ h2 in
      let (_, h4) = reject->>-eq-ok _ _ _ h3 in
      let (submission, _, h5) = >>=-eq-ok _ _ h4 in
      let (_, h6) = reject->>-eq-ok _ _ _ h5 in
      write_approval-same event_id actor_id at approved submission db h6

  pub approve_assessment_atomic-Progress :
      {r : Reports}
      → (event_id etag : String) (approved : AssessmentRow) (actor_id : String) (db : Database F)
        {after : Database F}
      → approve_assessment_atomic event_id etag approved actor_id db ≡ ok after
      → Progress r db after
  unfolding approve_assessment_atomic
  approve_assessment_atomic-Progress event_id etag approved actor_id db h =
      let (_, h1) = reject->>-eq-ok _ _ _ h in
      let (_, h2) = reject->>-eq-ok _ _ _ h1 in
      elim (Option-cases approved.stored.approved_at) [
        | inl n ↦ cc (rw n at h2)
        | inr (at, e) ↦
            let (p, q) =
              approve_latest-same event_id etag actor_id at approved db
                (as_conflict-eq-ok _ _ (rw e at h2)) in
            Progress-same p q
      ]
