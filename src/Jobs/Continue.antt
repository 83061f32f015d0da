-- ===== src/Jobs/Continue.antt =====
-- The continuation of a job that ended: the retry of a failure that may pass, and the resumption behind a
-- review or a precondition. Both make a distinct job and one record that binds it to its source.
use pruebas_personalizadas.Prelude.Common.{
  ℕ, String, Option, none, some, List, [], ◌∷◌, Bool, false, not, ◌&&◌, ◌||◌,
}
use pruebas_personalizadas.Prelude.Tests.{if◌then◌else◌, is_some, ltb, leb, nat_beq}
use pruebas_personalizadas.Prelude.Eq.{◌==◌, string_eq, option_eq}
use pruebas_personalizadas.Prelude.Lists.{any, filter}
use pruebas_personalizadas.Prelude.Sort.{sort}
use pruebas_personalizadas.Prelude.Result.{ok, err, reject, ◌>>=◌, ◌>>◌}
use pruebas_personalizadas.Prelude.Rows.{select_one, get_row, put}
use pruebas_personalizadas.Contracts.Evidence.{Diagnostic}
use pruebas_personalizadas.Jobs.Tables.{
  conflict, value_error, RepositoryError, RunStatus, run_status_eq, ControlState, control_state_eq,
  FailureClass, failure_class_eq, JobKind, job_kind_eq, JobRow, StageRunRow, ControlAction,
  ControlStatus, control_status_eq, ControlRecord, Database, job_row, submission_row, stage_run_row,
}
use pruebas_personalizadas.Jobs.Queue.{Step, found, with_submission, add_job}
use pruebas_personalizadas.Jobs.Cancel.{
  is_continuation, is_retryable_class, create_control, add_job_control_record, lock_job,
}

-- `except IntegrityError as exc: raise Conflict(...)`
unfoldable pub as_conflict : {A : Type 0} → String → Step A → Step A
as_conflict message (ok a) = ok a
as_conflict message (err RepositoryError.integrity_error) = err (conflict message)
as_conflict message (err (RepositoryError.not_found m)) = err (RepositoryError.not_found m)
as_conflict message (err (RepositoryError.conflict m)) = err (RepositoryError.conflict m)
as_conflict message (err (RepositoryError.value_error m)) = err (RepositoryError.value_error m)

-- What the caller of a continuation chooses.
pub record Continuation : Type 0 where
  pub resulting_job_id : String
  pub control_id : String
  pub actor_id : String
  pub reason_code : String
  pub resume_from_stage : String
  pub next_attempt_at : Option ℕ

-- `order_by(StageRunRow.attempt.desc(), StageRunRow.started_at.desc())`
abbrev runs_before : StageRunRow → StageRunRow → Bool
runs_before a b =
    ltb b.attempt a.attempt || (nat_beq a.attempt b.attempt && ltb b.started_at a.started_at)

abbrev first : {A : Type 0} → List A → Option A
first [] = none
first (x ∷ xs) = some x

abbrev pub is_provider : FailureClass → Bool
is_provider c = c == FailureClass.provider

abbrev or_else : Option ℕ → ℕ → ℕ
or_else none n = n
or_else (some m) n = if nat_beq m 0 then n else m

abbrev pub is_out_of_range : Option ℕ → Bool
is_out_of_range none = false
is_out_of_range (some n) = not (leb 1 n && leb n 10)

-- `source.status == "FAILED" and source.failure_class not in {"PRECONDITION", "VALIDATION"}`
abbrev pub is_gate : Option FailureClass → Bool
is_gate none = false
is_gate (some c) = c == FailureClass.precondition || c == FailureClass.validation

module _ {F : Type 0} where
  abbrev pub continues : JobRow F → ControlRecord → Bool
  continues source control =
      control.tenant_id == source.tenant_id
      && control.job_id == source.id
      && nat_beq control.source_attempt source.attempt
      && is_continuation control.action
      && control.status == ControlStatus.applied

  -- `_has_applied_continuation`
  unfoldable pub has_applied_continuation : JobRow F → Database F → Bool
  has_applied_continuation source db = any (continues source) db.controls

  -- The new row of a continuation, with the number of attempts it may use in all.
  unfoldable pub resulting_row : ℕ → Continuation → ℕ → JobRow F → JobRow F
  resulting_row now request max_attempts source = record {
    id = request.resulting_job_id;
    tenant_id = source.tenant_id;
    kind = source.kind;
    aggregate_id = source.aggregate_id;
    stage = request.resume_from_stage;
    status = RunStatus.queued;
    progress = source.progress;
    attempt = source.attempt;
    diagnostics = [];
    control_state = ControlState.active;
    failure_class = none;
    max_attempts = max_attempts;
    next_attempt_at = request.next_attempt_at;
    resume_from_stage = some request.resume_from_stage;
    cancel_requested_at = none;
    cancel_requested_by = none;
    cancelled_at = none;
    created_at = now;
    started_at = none;
    finished_at = none;
  }

  -- `_activate_resulting_submission_job`
  unfoldable pub activate_resulting_submission_job :
      JobRow F → JobRow F → ℕ → Database F → Step (Database F)
  unfolding found
  activate_resulting_submission_job source result activated_at db =
      if not (source.kind == JobKind.submission) then ok db else (do
        submission ←
            found "submission not found"
              (select_one source.aggregate_id source.tenant_id db.submissions)
        ok (
            with_submission
              (record submission {
                state = record submission.state {
                  current_stage = some result.stage;
                  active_job_id = some result.id;
                  updated_at = activated_at;
                };
                active_job_id = some result.id;
                updated_at = activated_at;
              })
              db))

  abbrev is_failed_at : String → JobRow F → StageRunRow → Bool
  is_failed_at stage source run =
      run.job_id == source.id
      && run.tenant_id == source.tenant_id
      && run.status == RunStatus.failed
      && run.stage == stage

  -- `failed_stage`
  unfoldable pub last_failed_run : String → JobRow F → Database F → Option StageRunRow
  last_failed_run stage source db =
      first (sort runs_before (filter (is_failed_at stage source) db.stage_runs))

  -- The last failed run of the stage gets the class of the failure and the time of the retry.
  unfoldable pub mark_failed_stage :
      FailureClass → Continuation → JobRow F → Database F → Database F
  mark_failed_stage failure_class request source db =
      elim (last_failed_run request.resume_from_stage source db) [
        | none ↦ db
        | some run ↦ record db {
          stage_runs =
              put
                (record run {
                  failure_class = some failure_class;
                  next_attempt_at = request.next_attempt_at;
                })
                db.stage_runs;
        }
      ]

  abbrev pub continuation_record :
      ControlAction → Option FailureClass → Continuation → ℕ → JobRow F → ControlRecord
  continuation_record action failure_class request now source = record {
    control_id = request.control_id;
    tenant_id = source.tenant_id;
    job_id = source.id;
    aggregate_id = source.aggregate_id;
    action = action;
    status = ControlStatus.applied;
    actor_id = request.actor_id;
    source_attempt = source.attempt;
    reason_code = request.reason_code;
    target_stage = some request.resume_from_stage;
    failure_class = failure_class;
    resulting_job_id = some request.resulting_job_id;
    diagnostics = [];
    requested_at = now;
    decided_at = some now;
  }

  -- `effective_max`
  abbrev pub effective_max : Option ℕ → JobRow F → ℕ
  effective_max max_attempts source = or_else max_attempts source.max_attempts

  -- The guards of a retry on its source, in order.
  unfoldable pub check_retry :
      FailureClass → Option ℕ → Continuation → JobRow F → Database F → Step (Unit {0})
  unfolding has_applied_continuation
  check_retry failure_class max_attempts request source db = do
    reject (not (source.control_state == ControlState.active)) (conflict "JOB_CANCEL_REQUESTED")
    reject (not (source.status == RunStatus.failed)) (conflict "JOB_NOT_RETRYABLE")
    reject (not (source.failure_class == some failure_class))
        (conflict "JOB_FAILURE_CLASS_MISMATCH")
    reject (leb (effective_max max_attempts source) source.attempt)
        (conflict "JOB_RETRY_LIMIT_EXHAUSTED")
    reject (has_applied_continuation source db) (conflict "JOB_CONTINUATION_ALREADY_SCHEDULED")
    reject
        (is_provider failure_class
          && not (any (λ (item : Diagnostic). item.retryable) source.diagnostics))
        (conflict "JOB_FAILURE_NOT_RETRYABLE")
    reject (is_some (get_row request.resulting_job_id db.jobs))
        (conflict "JOB_RESULT_ALREADY_EXISTS")

  -- The transaction of a retry.
  unfoldable pub retry_source :
      FailureClass → Option ℕ → Continuation → ℕ → JobRow F → Database F → Step (Database F)
  unfolding check_retry add_job activate_resulting_submission_job create_control
      add_job_control_record
  retry_source failure_class max_attempts request now source db = do
    check_retry failure_class max_attempts request source db
    let result = resulting_row now request (effective_max max_attempts source) source
    added ← add_job result db
    activated ← activate_resulting_submission_job source result now added
    control ←
        create_control
          (continuation_record ControlAction.retry (some failure_class) request now source)
    add_job_control_record control (mark_failed_stage failure_class request source activated)

  unfoldable pub schedule_job_retry :
      String → String → FailureClass → Option ℕ → Continuation → ℕ → Database F → Step (Database F)
  unfolding lock_job retry_source
  schedule_job_retry job_id tenant_id failure_class max_attempts request now db = do
    reject (not (is_retryable_class (some failure_class))) (conflict "JOB_FAILURE_NOT_RETRYABLE")
    reject (request.resulting_job_id == job_id) (conflict "JOB_RETRY_REQUIRES_DISTINCT_JOB")
    reject (is_out_of_range max_attempts) (value_error "max_attempts must be between 1 and 10")
    as_conflict "JOB_RETRY_ALREADY_SCHEDULED" (do
      source ← lock_job job_id tenant_id db
      retry_source failure_class max_attempts request now source db)

  -- The guards of a resumption on its source, in order.
  unfoldable pub check_resume : Continuation → JobRow F → Database F → Step (Unit {0})
  unfolding has_applied_continuation
  check_resume request source db = do
    reject (not (source.control_state == ControlState.active)) (conflict "JOB_CANCEL_REQUESTED")
    reject (not (source.status == RunStatus.failed || source.status == RunStatus.needs_review))
        (conflict "JOB_NOT_RESUMABLE")
    reject (source.status == RunStatus.failed && not (is_gate source.failure_class))
        (conflict "JOB_NOT_RESUMABLE")
    reject (leb source.max_attempts source.attempt) (conflict "JOB_RETRY_LIMIT_EXHAUSTED")
    reject (has_applied_continuation source db) (conflict "JOB_CONTINUATION_ALREADY_SCHEDULED")
    reject (is_some (get_row request.resulting_job_id db.jobs))
        (conflict "JOB_RESULT_ALREADY_EXISTS")

  -- The transaction of a resumption.
  unfoldable pub resume_source : Continuation → ℕ → JobRow F → Database F → Step (Database F)
  unfolding check_resume add_job activate_resulting_submission_job create_control
      add_job_control_record
  resume_source request now source db = do
    check_resume request source db
    let result = resulting_row now request source.max_attempts source
    added ← add_job result db
    activated ← activate_resulting_submission_job source result now added
    control ← create_control (continuation_record ControlAction.resume none request now source)
    add_job_control_record control activated

  unfoldable pub schedule_job_resume :
      String → String → Continuation → ℕ → Database F → Step (Database F)
  unfolding lock_job resume_source
  schedule_job_resume job_id tenant_id request now db = do
    reject (request.resulting_job_id == job_id) (conflict "JOB_RESUME_REQUIRES_DISTINCT_JOB")
    as_conflict "JOB_RESUME_ALREADY_SCHEDULED"
        (do source ← lock_job job_id tenant_id db; resume_source request now source db)
