-- ===== src/Jobs/Cancel.antt =====
-- The control records of jobs, and the cancellation of a job: at once while it waits, and by its worker
-- at the end of a stage while it runs.
use pruebas_personalizadas.Prelude.Common.{
  ℕ, String, Option, none, some, List, [], ◌∷◌, ◌++◌, Bool, true, false, not, ◌&&◌, ◌||◌,
}
use pruebas_personalizadas.Prelude.Tests.{if◌then◌else◌, is_some, ltb, nat_beq}
use pruebas_personalizadas.Prelude.Eq.{◌==◌, string_eq, option_eq}
use pruebas_personalizadas.Prelude.Lists.{any, length}
use pruebas_personalizadas.Prelude.Result.{ok, reject, ◌>>=◌, ◌>>◌}
use pruebas_personalizadas.Prelude.Rows.{select_one}
use pruebas_personalizadas.Contracts.Enums.{Severity}
use pruebas_personalizadas.Contracts.Evidence.{Diagnostic}
use pruebas_personalizadas.Jobs.Tables.{
  conflict, value_error, integrity_error, RunStatus, run_status_eq, ControlState, control_state_eq,
  FailureClass, failure_class_eq, JobKind, JobRow, SubmissionStatus, ControlAction,
  control_action_eq, ControlStatus, ControlRecord, Database, job_row, submission_row, activity_row,
}
use pruebas_personalizadas.Jobs.Queue.{
  Step, found, with_job, with_submission, with_activity, cancels, job_control,
}

abbrev pub plain_diagnostic : String → String → Bool → Diagnostic
plain_diagnostic code message retryable = record {
  code = code;
  severity = Severity.error;
  message = message;
  evidence_ids = [];
  source_ids = [];
  retryable = retryable;
  details = [];
}

abbrev pub cancel_diagnostic : Diagnostic
cancel_diagnostic =
    plain_diagnostic "JOB_CANCELLED" "The durable job was cancelled by an authorized actor." false

unfoldable pub append_diagnostic_once : List Diagnostic → Diagnostic → List Diagnostic
append_diagnostic_once diagnostics item =
    if any (λ existing. existing.code == item.code) diagnostics
    then diagnostics
    else diagnostics ++ item ∷ []

abbrev pub is_continuation : ControlAction → Bool
is_continuation ControlAction.retry = true
is_continuation ControlAction.resume = true
is_continuation ControlAction.cancel = false

-- `value not in {TRANSIENT, PROVIDER}` is the negation of this.
abbrev pub is_retryable_class : Option FailureClass → Bool
is_retryable_class none = false
is_retryable_class (some c) = c == FailureClass.transient || c == FailureClass.provider

-- The part of `control_is_auditable` on a record that has been decided.
abbrev pub check_applied : ControlRecord → Step (Unit {0})
check_applied control = do
  reject (not (is_some control.decided_at)) (value_error "APPLIED control requires decided_at")
  (if is_continuation control.action
      then reject
          (not (is_some control.resulting_job_id)
            || control.resulting_job_id == some control.job_id)
          (value_error "applied RETRY/RESUME requires a distinct resulting job")
      else reject (is_some control.resulting_job_id)
          (value_error "applied CANCEL does not create a new job"))
  reject (control.action == ControlAction.retry && not (is_retryable_class control.failure_class))
      (value_error "only transient/provider failures may be retried")

abbrev pub check_outcome : ControlStatus → ControlRecord → Step (Unit {0})
check_outcome ControlStatus.requested control =
    reject (is_some control.decided_at || is_some control.resulting_job_id)
      (value_error "REQUESTED control cannot expose an outcome")
check_outcome ControlStatus.rejected control = do
  reject (not (is_some control.decided_at) || is_some control.resulting_job_id)
      (value_error "REJECTED control requires decision without a new job")
  reject (nat_beq (length control.diagnostics) 0)
      (value_error "REJECTED control requires diagnostics")
check_outcome ControlStatus.applied control = check_applied control

abbrev pub is_before : Option ℕ → ℕ → Bool
is_before none b = false
is_before (some a) b = ltb a b

-- The making of a record: the bounds of `source_attempt` and the validator `control_is_auditable`. The
-- patterns of its strings, and the time zone of its times, are left out.
unfoldable pub create_control : ControlRecord → Step ControlRecord
create_control control = do
  reject (ltb 10 control.source_attempt) (value_error "source_attempt")
  reject (is_before control.decided_at control.requested_at)
      (value_error "decided_at cannot precede requested_at")
  (if is_continuation control.action
      then reject (not (is_some control.target_stage))
          (value_error "RETRY/RESUME require target_stage")
      else reject (is_some control.target_stage) (value_error "CANCEL cannot specify target_stage"))
  (if control.action == ControlAction.retry
      then reject (not (is_some control.failure_class))
          (value_error "RETRY requires the classified source failure")
      else reject (is_some control.failure_class)
          (value_error "failure_class is allowed only for RETRY"))
  check_outcome control.status control
  ok control

-- Whether a record stands in the way of another by a unique key: its id, or the job and the attempt.
abbrev pub is_taken_by : ControlRecord → ControlRecord → Bool
is_taken_by new old =
    old.control_id == new.control_id
    || (old.tenant_id == new.tenant_id
        && old.job_id == new.job_id
        && nat_beq old.source_attempt new.source_attempt)

abbrev pub is_pending_run : RunStatus → Bool
is_pending_run status = status == RunStatus.queued || status == RunStatus.running

module _ {F : Type 0} where
  -- `_add_job_control_record`, with the unique constraints of its table
  unfoldable pub add_job_control_record : ControlRecord → Database F → Step (Database F)
  add_job_control_record control db = do
    reject (any (is_taken_by control) db.controls) integrity_error
    ok (record db { controls = db.controls ++ control ∷ [] })

  -- `_lock_job`
  unfoldable pub lock_job : String → String → Database F → Step (JobRow F)
  unfolding found
  lock_job job_id tenant_id db = found "job not found" (select_one job_id tenant_id db.jobs)

  -- The columns of a cancelled job.
  unfoldable pub cancelled_row : ℕ → JobRow F → JobRow F
  cancelled_row completed_at row = record row {
    status = RunStatus.failed;
    control_state = ControlState.cancelled;
    failure_class = some FailureClass.cancellation;
    finished_at = some completed_at;
    cancelled_at = some completed_at;
    next_attempt_at = none;
    diagnostics = append_diagnostic_once row.diagnostics cancel_diagnostic;
  }

  -- What becomes of the activity or the submission of a cancelled job.
  unfoldable pub release_aggregate : JobKind → ℕ → JobRow F → Database F → Step (Database F)
  unfolding found
  release_aggregate JobKind.activity completed_at row db = do
    activity ← found "activity not found" (select_one row.aggregate_id row.tenant_id db.activities)
    ok (with_activity (record activity { status = "DRAFT"; updated_at = completed_at }) db)
  release_aggregate JobKind.question_action completed_at row db = ok db
  release_aggregate JobKind.submission completed_at row db = do
    submission ←
        found "submission not found" (select_one row.aggregate_id row.tenant_id db.submissions)
    ok (
        with_submission
          (record submission {
            state = record submission.state {
              status = SubmissionStatus.cancelled;
              current_stage = some row.stage;
              active_job_id = none;
              diagnostics = submission.state.diagnostics ++ cancel_diagnostic ∷ [];
              updated_at = completed_at;
            };
            active_job_id = none;
            updated_at = completed_at;
          })
          db)

  -- `_complete_job_cancellation`
  unfoldable pub complete_cancellation : ℕ → JobRow F → Database F → Step (Database F)
  unfolding release_aggregate
  complete_cancellation completed_at row db =
      let done = cancelled_row completed_at row in
      release_aggregate done.kind completed_at done (with_job done db)

  abbrev cancel_record : String → String → String → ℕ → JobRow F → ControlRecord
  cancel_record control_id actor_id reason_code now row = record {
    control_id = control_id;
    tenant_id = row.tenant_id;
    job_id = row.id;
    aggregate_id = row.aggregate_id;
    action = ControlAction.cancel;
    status = ControlStatus.applied;
    actor_id = actor_id;
    source_attempt = row.attempt;
    reason_code = reason_code;
    target_stage = none;
    failure_class = none;
    resulting_job_id = none;
    diagnostics = [];
    requested_at = now;
    decided_at = some now;
  }

  unfoldable pub requested_row : String → ℕ → JobRow F → JobRow F
  requested_row actor_id now row = record row {
    control_state = ControlState.cancel_requested;
    cancel_requested_at = some now;
    cancel_requested_by = some actor_id;
    next_attempt_at = none;
  }

  -- The request on an active job. `control_id` is the one given, or `stable_id` of the request.
  unfoldable pub cancel_active :
      String → String → String → ℕ → JobRow F → Database F → Step (Database F)
  unfolding create_control add_job_control_record complete_cancellation
  cancel_active control_id actor_id reason_code now row db = do
    reject (not (is_pending_run row.status)) (conflict "JOB_NOT_CANCELLABLE")
    control ← create_control (cancel_record control_id actor_id reason_code now row)
    db ← add_job_control_record control (with_job (requested_row actor_id now row) db)
    (if row.status == RunStatus.queued
        then complete_cancellation now (requested_row actor_id now row) db
        else ok db)

  unfoldable pub request_job_cancel :
      String → String → String → String → String → ℕ → Database F → Step (Database F)
  unfolding lock_job cancel_active
  request_job_cancel job_id tenant_id actor_id control_id reason_code now db = do
    row ← lock_job job_id tenant_id db
    (if cancels row.control_state
        then ok db
        else cancel_active control_id actor_id reason_code now row db)

  unfoldable pub complete_job_cancellation : String → String → ℕ → Database F → Step (Database F)
  unfolding lock_job complete_cancellation
  complete_job_cancellation job_id tenant_id now db = do
    row ← lock_job job_id tenant_id db
    (if row.control_state == ControlState.cancelled
        then ok db
        else reject (not (row.control_state == ControlState.cancel_requested))
            (conflict "JOB_CANCEL_NOT_REQUESTED")
          >> complete_cancellation now row db)

  unfoldable pub job_cancel_requested : String → String → Database F → Step Bool
  unfolding job_control
  job_cancel_requested job_id tenant_id db = do
    row ← job_control job_id tenant_id db
    ok (cancels row.control_state)
