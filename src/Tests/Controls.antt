-- ===== src/Tests/Controls.antt =====
-- The control commands on a job at concrete databases.
use pruebas_personalizadas.Prelude.Common.{
  ℕ, ◌≡◌, refl, sym, subst, String, none, some, [], ◌∷◌, true, Memᴰ, arith,
}
use pruebas_personalizadas.Prelude.Eq.{string_eq}
use pruebas_personalizadas.Prelude.Lists.{any, filter}
use pruebas_personalizadas.Prelude.Sets.{mem, distinct, has_duplicates, has_duplicates-false}
use pruebas_personalizadas.Prelude.Sort.{sort}
use pruebas_personalizadas.Prelude.Result.{ok, reject, ◌>>=◌, ◌>>◌}
use pruebas_personalizadas.Prelude.Rows.{select_one, get_row, put}
use pruebas_personalizadas.Jobs.Documents.{assessment_row}
use pruebas_personalizadas.Jobs.Tables.{
  RunStatus, FailureClass, ControlAction, JobRow, Database, job_row, submission_row, activity_row,
  stage_run_row,
}
use pruebas_personalizadas.Jobs.Queue.{found, job_of_status, add_job, with_job, cancels}
use pruebas_personalizadas.Jobs.Cancel.{
  create_control, add_job_control_record, lock_job, is_retryable_class, requested_row,
  cancelled_row, complete_job_cancellation, release_aggregate, complete_cancellation,
}
use pruebas_personalizadas.Jobs.Continue.{
  Continuation, as_conflict, has_applied_continuation, resulting_row,
  activate_resulting_submission_job, last_failed_run, mark_failed_stage, check_retry, retry_source,
  schedule_job_retry, effective_max, continuation_record,
}
use pruebas_personalizadas.Jobs.Worker.{lease_expired, failed_row}
use pruebas_personalizadas.Jobs.History.Change.{Reports, IsSound}
use pruebas_personalizadas.Jobs.History.Audit.{IsAudit}
use pruebas_personalizadas.Jobs.History.Moves.{Move, History, IsConsistent}
use pruebas_personalizadas.Jobs.History.Cancelled.{IsRefused, History-IsRefused}
use pruebas_personalizadas.Jobs.History.Once.{Continued, continuation-once}
use pruebas_personalizadas.Jobs.History.Continued.{IsContinued, schedule_job_retry-IsContinued}
use pruebas_personalizadas.Tests.Jobs.{orphan, database, start}

-- One job alone.
single-IsConsistent :
    {r : Reports} (row : JobRow ℕ) → IsSound r row → IsConsistent r (database (row ∷ []))
unfolding has_duplicates mem distinct
single-IsConsistent {r} row s = record {
  jobs = record {
    sound = λ x m. elim m [ Memᴰ.head e ↦ subst (IsSound r) (sym e) s | Memᴰ.tail k ↦ elim k [ ] ];
    once = has_duplicates-false {A = String} (row.id ∷ []) refl;
  };
  controls = IsAudit.empty;
}

abbrev failed : JobRow ℕ
failed = failed_row FailureClass.transient lease_expired 20 orphan

failed-IsSound : IsSound Reports.any_attempt failed
unfolding failed_row job_of_status
failed-IsSound = record {
  used = tt;
  some_attempt = omega arith;
  few_attempts = omega arith;
  projected = refl;
}

abbrev request : String → Continuation
request id = record {
  resulting_job_id = id;
  control_id = "ctl";
  actor_id = "user";
  reason_code = "RETRY_REQUESTED";
  resume_from_stage = "PARSE";
  next_attempt_at = some 40;
}

abbrev failing : Database ℕ
failing = database (failed ∷ [])

abbrev retried : Database ℕ
retried = record (database (failed ∷ resulting_row 30 (request "j3") 3 failed ∷ [])) {
  controls =
      continuation_record ControlAction.retry (some FailureClass.transient) (request "j3") 30 failed
      ∷ [];
}

retry_test :
    schedule_job_retry "j2" "ten" FailureClass.transient none (request "j3") 30 failing ≡ ok retried
unfolding schedule_job_retry retry_source check_retry lock_job found select_one get_row as_conflict
    add_job has_applied_continuation any resulting_row activate_resulting_submission_job
    mark_failed_stage last_failed_run filter sort create_control add_job_control_record failed_row
    job_of_status ◌>>=◌ ◌>>◌ reject
retry_test = refl

schedule_job_retry-IsContinued_example :
    (source : JobRow ℕ) × (lock_job "j2" "ten" failing ≡ ok source)
    × (is_retryable_class (some FailureClass.transient) ≡ true)
    × (source.status ≡ RunStatus.failed)
    × (source.failure_class ≡ some FailureClass.transient)
    × IsContinued ControlAction.retry
        (some FailureClass.transient)
        (request "j3")
        30
        (effective_max none source)
        source
        failing
        retried
schedule_job_retry-IsContinued_example =
    schedule_job_retry-IsContinued "j2" "ten" FailureClass.transient none (request "j3") 30 failing
      retry_test

lock_test : lock_job "j2" "ten" failing ≡ ok failed
unfolding lock_job found select_one failed_row job_of_status
lock_test = refl

lock_again_test : lock_job "j2" "ten" retried ≡ ok failed
unfolding lock_job found select_one failed_row job_of_status resulting_row
lock_again_test = refl

continuation-once_example : ¬ Continued "j2" "ten" retried start
continuation-once_example =
    continuation-once "j2" "ten" start failed failed (single-IsConsistent failed failed-IsSound)
      lock_test (Continued.by_retry FailureClass.transient none (request "j3") 30 retry_test)
      History.here lock_again_test refl

abbrev requested : JobRow ℕ
requested = requested_row "user" 30 orphan

requested-IsSound : IsSound Reports.any_attempt requested
unfolding requested_row job_of_status
requested-IsSound = record {
  used = tt;
  some_attempt = omega arith;
  few_attempts = omega arith;
  projected = refl;
}

abbrev cancelling : Database ℕ
cancelling = database (requested ∷ [])

abbrev cancelled : Database ℕ
cancelled = with_job (cancelled_row 40 requested) cancelling

cancel_test : complete_job_cancellation "j2" "ten" 40 cancelling ≡ ok cancelled
unfolding complete_job_cancellation complete_cancellation release_aggregate lock_job found
    select_one put cancelled_row requested_row job_of_status ◌>>=◌ ◌>>◌ reject
cancel_test = refl

requested_cancels : cancels requested.control_state ≡ true
unfolding requested_row
requested_cancels = refl

History-IsRefused_example : IsRefused requested.id requested.tenant_id cancelled
History-IsRefused_example =
    History-IsRefused requested (single-IsConsistent requested requested-IsSound) (Memᴰ.head refl)
      requested_cancels (History.next History.here (Move.complete_cancel "j2" "ten" 40 cancel_test))
