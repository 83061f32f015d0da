-- ===== src/Jobs/Worker.antt =====
-- The side of the workers: the claim of the next job, the recovery of jobs whose worker is gone, the
-- failure of a dispatch, and the publication of an assessment.
use pruebas_personalizadas.Prelude.Common.{
  ℕ, ◌+◌, ◌-◌, ◌*◌, String, Option, none, some, List, [], ◌∷◌, Bool, true, false, not, ◌&&◌, ◌||◌,
}
use pruebas_personalizadas.Prelude.Tests.{if◌then◌else◌, is_some, ltb, leb, nat_beq}
use pruebas_personalizadas.Prelude.Eq.{◌==◌, string_eq, option_eq}
use pruebas_personalizadas.Prelude.Lists.{filter, take, length}
use pruebas_personalizadas.Prelude.Sort.{sort}
use pruebas_personalizadas.Prelude.Result.{ok, reject, ◌>>=◌, ◌>>◌}
use pruebas_personalizadas.Prelude.Rows.{select_one}
use pruebas_personalizadas.Contracts.Evidence.{Diagnostic}
use pruebas_personalizadas.Jobs.Tables.{
  value_error, RunStatus, run_status_eq, ControlState, control_state_eq, FailureClass, JobKind,
  JobRow, SubmissionRow, SubmissionStatus, ActivityRow, Database, job_row, submission_row,
  activity_row,
}
use pruebas_personalizadas.Jobs.Queue.{Step, with_job, with_submission, with_activity}
use pruebas_personalizadas.Jobs.Cancel.{plain_diagnostic, lock_job, complete_cancellation}

abbrev pub lease_expired : Diagnostic
lease_expired =
    plain_diagnostic "JOB_LEASE_EXPIRED"
      "The worker lease expired before a terminal state was persisted." true

-- `a <= b` on columns, which is not true of an absent time
abbrev pub is_by : Option ℕ → ℕ → Bool
is_by none b = false
is_by (some a) b = leb a b

module _ {F : Type 0} where
  abbrev pub failed_submission : Diagnostic → ℕ → JobRow F → SubmissionRow F → SubmissionRow F
  failed_submission failure now row submission = record submission {
    state = record submission.state {
      status = SubmissionStatus.technical_failure;
      current_stage = some row.stage;
      active_job_id = some row.id;
      diagnostics = failure ∷ [];
      updated_at = now;
    };
    updated_at = now;
  }

  abbrev put_activity : ℕ → Option ActivityRow → Database F → Database F
  put_activity now none db = db
  put_activity now (some activity) db =
      with_activity (record activity { status = "TECHNICAL_FAILURE"; updated_at = now }) db

  abbrev put_submission :
      Diagnostic → ℕ → JobRow F → Option (SubmissionRow F) → Database F → Database F
  put_submission failure now row none db = db
  put_submission failure now row (some submission) db =
      if submission.active_job_id == some row.id
      then with_submission (failed_submission failure now row submission) db
      else db

  -- The failure of a job reaches its activity, or the submission whose active job it is.
  unfoldable pub fail_aggregate : JobKind → Diagnostic → ℕ → JobRow F → Database F → Database F
  fail_aggregate JobKind.question_action failure now row db = db
  fail_aggregate JobKind.activity failure now row db =
      put_activity now (select_one row.aggregate_id row.tenant_id db.activities) db
  fail_aggregate JobKind.submission failure now row db =
      put_submission failure now row (select_one row.aggregate_id row.tenant_id db.submissions) db

  unfoldable pub failed_row : FailureClass → Diagnostic → ℕ → JobRow F → JobRow F
  failed_row failure_class failure now row = record row {
    status = RunStatus.failed;
    failure_class = some failure_class;
    diagnostics = failure ∷ [];
    next_attempt_at = none;
    finished_at = some now;
  }

  abbrev pub fail_job : FailureClass → Diagnostic → ℕ → JobRow F → Database F → Database F
  fail_job failure_class failure now row db =
      let failed = failed_row failure_class failure now row in
      fail_aggregate failed.kind failure now failed (with_job failed db)

  abbrev pub is_unclaimed : JobRow F → Bool
  is_unclaimed row = row.status == RunStatus.queued && row.control_state == ControlState.active

  -- Whether the job was failed, and the tables.
  unfoldable pub fail_queued_dispatch :
      String → String → Diagnostic → FailureClass → ℕ → Database F → Step (Bool × Database F)
  unfolding lock_job fail_aggregate
  fail_queued_dispatch job_id tenant_id failure failure_class now db = do
    row ← lock_job job_id tenant_id db
    ok (
        if not (is_unclaimed row)
        then (false, db)
        else (true, fail_job failure_class failure now row db))

  -- The body of the loop over the rows whose lease is over.
  unfoldable pub reconcile_row : ℕ → JobRow F → Database F → Step (Database F)
  unfolding complete_cancellation fail_aggregate
  reconcile_row now row db =
      if row.control_state == ControlState.cancel_requested
      then complete_cancellation now row db
      else (if not (row.control_state == ControlState.active)
          then ok db
          else ok (fail_job FailureClass.transient lease_expired now row db))

  unfoldable pub reconcile_rows : ℕ → List (JobRow F) → Database F → Step (Database F)
  unfolding reconcile_row
  reconcile_rows now [] db = ok db
  reconcile_rows now (row ∷ rows) db = do db ← reconcile_row now row db; reconcile_rows now rows db

  -- The columns of a claimed job.
  unfoldable pub claimed_row : ℕ → JobRow F → JobRow F
  claimed_row now row = record row {
    status = RunStatus.running;
    attempt = row.attempt + 1;
    started_at = some now;
    finished_at = none;
    next_attempt_at = none;
  }

  abbrev pub is_stale : ℕ → JobRow F → Bool
  is_stale cutoff row = row.status == RunStatus.running && is_by row.started_at cutoff

  abbrev is_due : ℕ → JobRow F → Bool
  is_due now row = not (is_some row.next_attempt_at) || is_by row.next_attempt_at now

  abbrev pub is_claimable : ℕ → JobRow F → Bool
  is_claimable now row = is_unclaimed row && ltb row.attempt row.max_attempts && is_due now row

  -- `id_lt` is the order of the database on identifiers, and `skipped` tells the rows that other
  -- transactions hold (`skip_locked`).
  module _ (id_lt : String → String → Bool) where
    abbrev started_before : JobRow F → JobRow F → Bool
    started_before a b = elim a.started_at [
      | none ↦ false
      | some s ↦ elim b.started_at [
        | none ↦ false
        | some t ↦ ltb s t || (nat_beq s t && id_lt a.id b.id)
      ]
    ]

    abbrev pub created_before : JobRow F → JobRow F → Bool
    created_before a b =
        ltb a.created_at b.created_at || (nat_beq a.created_at b.created_at && id_lt a.id b.id)

    abbrev pub stale_rows : (skipped : JobRow F → Bool) → ℕ → Database F → List (JobRow F)
    stale_rows skipped cutoff db =
        take 100
          (sort started_before (filter (λ row. is_stale cutoff row && not (skipped row)) db.jobs))

    -- The number of rows taken, and the tables. Times before the epoch do not occur.
    unfoldable pub reconcile_stale_jobs :
        (skipped : JobRow F → Bool) → (lease_seconds now : ℕ) → Database F → Step (ℕ × Database F)
    unfolding reconcile_rows
    reconcile_stale_jobs skipped lease_seconds now db = do
      reject (not (leb 300 lease_seconds && leb lease_seconds 7200))
          (value_error "job lease must be between 300 and 7200 seconds")
      let rows = stale_rows skipped (now - lease_seconds * 1000000) db
      db ← reconcile_rows now rows db
      ok (length rows, db)

    abbrev pub claimable_rows : (skipped : JobRow F → Bool) → ℕ → Database F → List (JobRow F)
    claimable_rows skipped now db =
        sort created_before (filter (λ row. is_claimable now row && not (skipped row)) db.jobs)

    unfoldable pub claim_first : ℕ → List (JobRow F) → Database F → Option (JobRow F) × Database F
    claim_first now [] db = (none, db)
    claim_first now (row ∷ rows) db =
        (some (claimed_row now row), with_job (claimed_row now row) db)

    -- The claimed job, if there is one, and the tables. `reconciled_at` and `now` are the two readings
    -- of the clock.
    unfoldable pub claim_next_job :
        (skipped : JobRow F → Bool)
        → (lease_seconds reconciled_at now : ℕ) → Database F
        → Step (Option (JobRow F) × Database F)
    unfolding reconcile_stale_jobs claim_first
    claim_next_job skipped lease_seconds reconciled_at now db = do
      reconciled ← reconcile_stale_jobs skipped lease_seconds reconciled_at db
      ok (claim_first now (claimable_rows skipped now reconciled.1) reconciled.1)
