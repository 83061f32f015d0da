-- ===== src/Jobs/Publish.antt =====
-- The publication of an assessment by the worker of its submission, and its approval by a reviewer.
use pruebas_personalizadas.Prelude.Common.{
  ℕ, ◌+◌, String, Option, none, some, List, [], ◌∷◌, ◌++◌, Bool, true, false, not, ◌&&◌, ◌||◌,
}
use pruebas_personalizadas.Prelude.Tests.{if◌then◌else◌, is_some, nat_beq, ltb}
use pruebas_personalizadas.Prelude.Eq.{◌==◌, string_eq, option_eq}
use pruebas_personalizadas.Prelude.Lists.{any, filter}
use pruebas_personalizadas.Prelude.Result.{ok, err, reject, ◌>>=◌, ◌>>◌}
use pruebas_personalizadas.Prelude.Rows.{select_one, get_row, put}
use pruebas_personalizadas.Contracts.Evidence.{Detail}
use pruebas_personalizadas.Jobs.Documents.{
  WorkflowStatus, workflow_status_eq, AssessmentRow, GuideRow, AuditEventRow, assessment_row,
  guide_row, audit_event_row,
}
use pruebas_personalizadas.Jobs.Tables.{
  conflict, value_error, integrity_error, RunStatus, run_status_eq, ControlState, control_state_eq,
  JobRow, SubmissionRow, SubmissionStatus, submission_status_eq, Database, job_row, submission_row,
}
use pruebas_personalizadas.Jobs.Queue.{Step, found}
use pruebas_personalizadas.Jobs.Cancel.{lock_job, complete_cancellation}
use pruebas_personalizadas.Jobs.Continue.{as_conflict}
use pruebas_personalizadas.Prelude.Rows.{Row}

-- `session.merge`
unfoldable pub merge : {A : Type 0} ⦃r : Row A⦄ → A → List A → List A
merge ⦃r⦄ row rows = if is_some (get_row (r.id_of row) rows) then put row rows else rows ++ row ∷ []

-- The test on the references of an assessment and its guide.
unfoldable pub is_inconsistent : String → AssessmentRow → GuideRow → Bool
is_inconsistent tenant_id assessment guide =
    not (assessment.tenant_id == tenant_id)
    || not (guide.tenant_id == tenant_id)
    || not (assessment.submission_id == guide.submission_id)
    || not (assessment.assessment_id == guide.assessment_id)
    || not (assessment.stored.submission_id == assessment.submission_id)
    || not (assessment.stored.assessment_id == assessment.assessment_id)
    || not (assessment.stored.status == WorkflowStatus.needs_review)
    || not (guide.stored.assessment_id == assessment.assessment_id)
    || not (guide.stored.status == WorkflowStatus.ready)

-- The version that a select in descending order puts first.
unfoldable pub latest_version : List AssessmentRow → Option AssessmentRow
latest_version [] = none
latest_version (row ∷ rows) =
    let rest = latest_version rows in
    elim rest [
      | none ↦ some row
      | some later ↦ if ltb row.version later.version then some later else some row
    ]

abbrev pub is_version_of : String → String → AssessmentRow → Bool
is_version_of assessment_id tenant_id row =
    row.assessment_id == assessment_id && row.tenant_id == tenant_id

-- A row that a new one collides with: by key, by etag, or by submission and version.
abbrev pub collides : AssessmentRow → AssessmentRow → Bool
collides new old =
    old.row_id == new.row_id
    || old.etag == new.etag
    || (old.submission_id == new.submission_id && nat_beq old.version new.version)

abbrev pub check_version : AssessmentRow → AssessmentRow → Step (Unit {0})
check_version approved latest =
    reject
      (not (nat_beq approved.version (latest.version + 1))
        || not (approved.submission_id == latest.submission_id)
        || not (approved.stored.submission_id == latest.submission_id))
      (conflict "ASSESSMENT_VERSION_CONFLICT")

abbrev pub approval_event : String → String → ℕ → AssessmentRow → AuditEventRow
approval_event event_id actor_id approved_at row = record {
  id = event_id;
  tenant_id = row.tenant_id;
  event_type = "assessment.approved";
  aggregate_id = row.assessment_id;
  actor_id = actor_id;
  payload = ("assessment_version", Detail.number row.version) ∷ [];
  occurred_at = approved_at;
}

-- A merged row replaces the one of its key, and may collide with another by etag or version.
abbrev pub clashes : AssessmentRow → AssessmentRow → Bool
clashes new old =
    not (old.row_id == new.row_id)
    && (old.etag == new.etag
        || (old.submission_id == new.submission_id && nat_beq old.version new.version))

module _ {F : Type 0} where
  -- The columns of a job whose assessment is published.
  unfoldable pub published_row : F → ℕ → JobRow F → JobRow F
  published_row one now job = record job {
    stage = "ASSEMBLE";
    status = RunStatus.succeeded;
    progress = one;
    failure_class = none;
    next_attempt_at = none;
    finished_at = some now;
  }

  abbrev pub reviewable_submission : F → ℕ → JobRow F → SubmissionRow F → SubmissionRow F
  reviewable_submission one now job submission = record submission {
    state = record {
      submission_id = submission.id;
      activity_id = submission.activity_id;
      status = SubmissionStatus.needs_review;
      current_stage = some "NEEDS_REVIEW";
      progress = one;
      active_job_id = some job.id;
      diagnostics = [];
      updated_at = now;
    };
    active_job_id = some job.id;
    updated_at = now;
  }

  -- A job that is no longer active publishes nothing, and a requested cancellation is completed.
  unfoldable pub yield_to_cancellation : ℕ → JobRow F → Database F → Step (Bool × Database F)
  yield_to_cancellation now job db =
      if job.control_state == ControlState.cancel_requested
      then (complete_cancellation now job db >>= λ after. ok (false, after))
      else ok (false, db)

  unfoldable pub publish :
      F
      → ℕ
      → AssessmentRow
      → GuideRow
      → JobRow F
      → SubmissionRow F
      → Database F
      → Step (Bool × Database F)
  unfolding published_row merge
  publish one now assessment guide job submission db = do
    reject (not (job.status == RunStatus.running) || not (submission.active_job_id == some job.id))
        (conflict "SUBMISSION_FINALIZATION_STATE_CHANGED")
    reject (any (clashes assessment) db.assessments) integrity_error
    ok (
      true,
      record db {
        assessments = merge assessment db.assessments;
        guides = merge guide db.guides;
        submissions = put (reviewable_submission one now job submission) db.submissions;
        jobs = put (published_row one now job) db.jobs;
      },
    )

  -- Whether the assessment was published, and the tables. `one` is the progress 1.0.
  unfoldable pub finalize_submission_assessment :
      F → String → String → AssessmentRow → GuideRow → ℕ → Database F → Step (Bool × Database F)
  unfolding lock_job found is_inconsistent yield_to_cancellation publish
  finalize_submission_assessment one job_id tenant_id assessment guide now db = do
    reject (is_inconsistent tenant_id assessment guide)
        (value_error "assessment finalization references are inconsistent")
    job ← lock_job job_id tenant_id db
    submission ←
        found "submission not found" (select_one assessment.submission_id tenant_id db.submissions)
    (if not (job.control_state == ControlState.active)
        then yield_to_cancellation now job db
        else publish one now assessment guide job submission db)

  abbrev pub approved_submission : ℕ → SubmissionRow F → SubmissionRow F
  approved_submission approved_at submission = record submission {
    state = record submission.state {
      status = SubmissionStatus.approved;
      updated_at = approved_at;
    };
    updated_at = approved_at;
  }

  -- The writes of an approval, which a row of the same key or version, or the same event, refuses.
  unfoldable pub write_approval :
      String → String → ℕ → AssessmentRow → SubmissionRow F → Database F → Step (Database F)
  write_approval event_id actor_id approved_at row submission db = do
    reject (any (collides row) db.assessments) integrity_error
    reject (is_some (get_row event_id db.events)) integrity_error
    ok (record db {
      assessments = db.assessments ++ row ∷ [];
      submissions = put (approved_submission approved_at submission) db.submissions;
      events = db.events ++ approval_event event_id actor_id approved_at row ∷ [];
    })

  -- The transaction of an approval. `event_id` is `stable_id` of the event.
  unfoldable pub approve_latest :
      String → String → String → ℕ → AssessmentRow → Database F → Step (Database F)
  unfolding found write_approval
  approve_latest event_id expected_etag actor_id approved_at approved db = do
    latest ← found "assessment not found" (
        latest_version
          (filter (is_version_of approved.assessment_id approved.tenant_id) db.assessments))
    reject (not (latest.etag == expected_etag)) (conflict "ETAG_MISMATCH")
    reject (not (latest.stored.status == WorkflowStatus.needs_review))
        (conflict "ASSESSMENT_NOT_REVIEWABLE")
    check_version approved latest
    submission ←
        found "submission not found"
          (select_one latest.submission_id latest.tenant_id db.submissions)
    reject (not (submission.state.status == SubmissionStatus.needs_review))
        (conflict "ASSESSMENT_SUBMISSION_NOT_REVIEWABLE")
    write_approval event_id actor_id approved_at approved submission db

  unfoldable pub approve_assessment_atomic :
      String → String → AssessmentRow → String → Database F → Step (Database F)
  unfolding approve_latest
  approve_assessment_atomic event_id expected_etag approved actor_id db = do
    reject (not (approved.stored.status == WorkflowStatus.approved))
        (value_error "approved_row must contain an APPROVED assessment")
    reject (not (approved.stored.approved_by == some actor_id))
        (value_error "approval actor metadata is inconsistent")
    elim approved.stored.approved_at [
      | none ↦ err (value_error "approval actor metadata is inconsistent")
      | some approved_at ↦
          as_conflict "ASSESSMENT_VERSION_CONFLICT"
            (approve_latest event_id expected_etag actor_id approved_at approved db)
    ]
