-- ===== src/Jobs/Queue.antt =====
-- The queueing of a job, the reports of the worker that runs it, and the read of its status. The locks
-- of a transaction (`with_for_update`) change nothing in a single one: a transaction is one step.
use pruebas_personalizadas.Prelude.Common.{
  ℕ, String, Option, none, some, List, [], ◌∷◌, ◌++◌, Bool, true, false, not, ◌&&◌, ◌||◌,
}
use pruebas_personalizadas.Prelude.Tests.{if◌then◌else◌, is_some, nat_beq}
use pruebas_personalizadas.Prelude.Eq.{◌==◌, string_eq, option_eq}
use pruebas_personalizadas.Prelude.Lists.{any, all, filter, length}
use pruebas_personalizadas.Prelude.Sets.{mem}
use pruebas_personalizadas.Prelude.Result.{Result, ok, err, reject, ◌>>=◌, ◌>>◌}
use pruebas_personalizadas.Prelude.Rows.{select_one, get_row, put}
use pruebas_personalizadas.Jobs.Tables.{
  RepositoryError, not_found, conflict, integrity_error, RunStatus, run_status_eq, ControlState,
  control_state_eq, FailureClass, failure_class_eq, JobKind, JobRow, JobStatus, ProcessingState,
  SubmissionRow, SubmissionStatus, submission_status_eq, ActivityRow, ArtifactRow, Database,
  job_row, submission_row, activity_row,
}

abbrev pub Step : Type 0 → Type 0
Step A = Result RepositoryError A

-- `if row is None: raise NotFound(...)`
unfoldable pub found : {A : Type 0} → String → Option A → Step A
found message none = err (not_found message)
found message (some row) = ok row

abbrev pub max_job_attempts : ℕ
max_job_attempts = 3

-- `pending_artifact`: an artifact of the activity itself that is not complete.
abbrev pub is_pending : ActivityRow → ArtifactRow → Bool
is_pending activity artifact =
    artifact.activity_id == activity.id
    && artifact.tenant_id == activity.tenant_id
    && not (is_some artifact.submission_id)
    && not (artifact.status == "COMPLETE")

-- `len(artifacts) == 1 and artifacts[0].status == "COMPLETE"`
abbrev pub is_one_complete : List ArtifactRow → Bool
is_one_complete artifacts =
    nat_beq (length artifacts) 1 && all (λ artifact. artifact.status == "COMPLETE") artifacts

-- `submission.active_job_id`, which a test reads as false when it is absent or empty
abbrev pub is_set : Option String → Bool
is_set none = false
is_set (some text) = not (text == "")

abbrev pub cancels : ControlState → Bool
cancels ControlState.active = false
cancels ControlState.cancel_requested = true
cancels ControlState.cancelled = true

module _ {F : Type 0} where
  -- `_job_row`; `created_at` is the default of its column, the clock at the insert.
  unfoldable pub job_of_status : ℕ → JobStatus F → JobKind → JobRow F
  job_of_status now status kind = record {
    id = status.job_id;
    tenant_id = status.tenant_id;
    kind = kind;
    aggregate_id = status.aggregate_id;
    stage = status.stage;
    status = status.status;
    progress = status.progress;
    attempt = status.attempt;
    diagnostics = status.diagnostics;
    control_state = ControlState.active;
    failure_class = none;
    max_attempts = max_job_attempts;
    next_attempt_at = none;
    resume_from_stage = none;
    cancel_requested_at = none;
    cancel_requested_by = none;
    cancelled_at = none;
    created_at = now;
    started_at = status.started_at;
    finished_at = status.finished_at;
  }

  abbrev pub with_job : JobRow F → Database F → Database F
  with_job row db = record db { jobs = put row db.jobs }

  abbrev pub with_submission : SubmissionRow F → Database F → Database F
  with_submission row db = record db { submissions = put row db.submissions }

  abbrev pub with_activity : ActivityRow → Database F → Database F
  with_activity row db = record db { activities = put row db.activities }

  -- The insert of a job, which its primary key refuses if there is one.
  unfoldable pub add_job : JobRow F → Database F → Step (Database F)
  add_job row db = do
    reject (is_some (get_row row.id db.jobs)) integrity_error
    ok (record db { jobs = db.jobs ++ row ∷ [] })

  unfoldable pub queue_activity_job : ℕ → JobStatus F → List String → Database F → Step (Database F)
  unfolding found add_job
  queue_activity_job now status allowed_activity_statuses db = do
    activity ←
        found "activity not found" (select_one status.aggregate_id status.tenant_id db.activities)
    reject (not (mem activity.status allowed_activity_statuses))
        (conflict "ACTIVITY_PIPELINE_ALREADY_STARTED")
    reject (any (is_pending activity) db.artifacts) (conflict "ARTIFACT_UPLOAD_PENDING")
    add_job (job_of_status now status JobKind.activity)
        (with_activity (record activity { status = "QUEUED"; updated_at = now }) db)

  abbrev pub is_uploaded_to : SubmissionRow F → ArtifactRow → Bool
  is_uploaded_to submission artifact =
      artifact.submission_id == some submission.id && artifact.tenant_id == submission.tenant_id

  unfoldable pub queue_submission_job :
      ℕ → JobStatus F → ProcessingState F → ℕ → Database F → Step (Database F)
  unfolding found add_job
  queue_submission_job now status state blueprint_version db = do
    submission ←
        found "submission not found"
          (select_one state.submission_id status.tenant_id db.submissions)
    reject
        (not (submission.state.status == SubmissionStatus.uploaded)
          || is_set submission.active_job_id)
        (conflict "SUBMISSION_PIPELINE_ALREADY_STARTED")
    reject (not (is_one_complete (filter (is_uploaded_to submission) db.artifacts)))
        (conflict "SUBMISSION_ARTIFACT_REQUIRED")
    add_job (job_of_status now status JobKind.submission) (
        with_submission
          (record submission {
            state = state;
            active_job_id = state.active_job_id;
            blueprint_version = some blueprint_version;
            updated_at = now;
          })
          db)

  unfoldable pub set_submission_state : ℕ → ProcessingState F → Database F → Step (Database F)
  unfolding found
  set_submission_state now state db = do
    row ← found "submission not found" (get_row state.submission_id db.submissions)
    ok (
        with_submission
          (record row { state = state; active_job_id = state.active_job_id; updated_at = now }) db)

  -- The check `ck_jobs_cancelled_projection` on a row.
  abbrev pub is_projected : JobRow F → Bool
  is_projected row =
      not (row.control_state == ControlState.cancelled)
      || (row.status == RunStatus.failed
          && row.failure_class == some FailureClass.cancellation
          && is_some row.cancelled_at)

  -- The columns of a status, written over those of a row.
  unfoldable pub report : JobStatus F → JobRow F → JobRow F
  report status row =
      let succeeded = status.status == RunStatus.succeeded in
      record row {
        stage = status.stage;
        status = status.status;
        progress = status.progress;
        attempt = status.attempt;
        diagnostics = status.diagnostics;
        started_at = status.started_at;
        finished_at = status.finished_at;
        failure_class = if succeeded then none else row.failure_class;
        next_attempt_at = if succeeded then none else row.next_attempt_at;
      }

  -- The commit of the update: of the checks of the table, it can break the one on cancelled jobs.
  unfoldable pub save_job_status : ℕ → JobStatus F → Option JobKind → Database F → Step (Database F)
  unfolding found report add_job
  save_job_status now status kind db = elim (get_row status.job_id db.jobs) [
    | none ↦ do kind ← found "job not found" kind; add_job (job_of_status now status kind) db
    | some row ↦ do
      reject (not (row.tenant_id == status.tenant_id)) (not_found "job not found")
      reject (cancels row.control_state && status.status == RunStatus.succeeded)
          (conflict "JOB_CANCEL_REQUESTED")
      reject (not (is_projected (report status row))) integrity_error
      ok (with_job (report status row) db)
  ]

  -- `job_control`, by `scoped`: by primary key, and then by tenant.
  unfoldable pub job_control : String → String → Database F → Step (JobRow F)
  unfolding found
  job_control job_id tenant_id db = do
    row ← found "JobRow not found" (get_row job_id db.jobs)
    reject (not (row.tenant_id == tenant_id)) (not_found "JobRow not found")
    ok row

  unfoldable pub job_status : String → String → Database F → Step (JobStatus F)
  unfolding job_control
  job_status job_id tenant_id db = do
    row ← job_control job_id tenant_id db
    ok (record {
      job_id = row.id;
      tenant_id = row.tenant_id;
      aggregate_id = row.aggregate_id;
      stage = row.stage;
      status = row.status;
      progress = row.progress;
      attempt = row.attempt;
      diagnostics = row.diagnostics;
      started_at = row.started_at;
      finished_at = row.finished_at;
    })
