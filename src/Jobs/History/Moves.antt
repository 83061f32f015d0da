-- ===== src/Jobs/History/Moves.antt =====
-- A history of the database: any of the operations, one transaction behind the other, in any order, with
-- any arguments and at any times. Its workers report any attempts, or only those that keep to the attempts
-- of their job: then no report lowers an attempt or passes the limit, and a queued job starts within it.
use pruebas_personalizadas.Prelude.Common.{
  ℕ, ◌≡◌, sym, subst, ◌∙◌, String, Option, List, Bool, Memᴰ,
}
use pruebas_personalizadas.Prelude.Result.{ok}
use pruebas_personalizadas.Prelude.Rows.{same_row}
use pruebas_personalizadas.Prelude.Sort.{IsOrder}
use pruebas_personalizadas.Contracts.Evidence.{Diagnostic}
use pruebas_personalizadas.Jobs.Documents.{AssessmentRow, GuideRow}
use pruebas_personalizadas.Jobs.Tables.{
  FailureClass, JobKind, JobRow, JobStatus, ProcessingState, ControlRecord, Database, job_row,
}
use pruebas_personalizadas.Jobs.Queue.{
  queue_activity_job, queue_submission_job, set_submission_state, save_job_status,
}
use pruebas_personalizadas.Jobs.Cancel.{request_job_cancel, complete_job_cancellation}
use pruebas_personalizadas.Jobs.Continue.{Continuation, schedule_job_retry, schedule_job_resume}
use pruebas_personalizadas.Jobs.Worker.{fail_queued_dispatch, reconcile_stale_jobs, claim_next_job}
use pruebas_personalizadas.Jobs.Publish.{finalize_submission_assessment, approve_assessment_atomic}
use pruebas_personalizadas.Jobs.History.Change.{
  Reports, AtMost, IsTable, Change-IsTable, Change-LivesOn, LivesOn, LivesOn-trans, Evolves,
  Evolves-refl,
}
use pruebas_personalizadas.Jobs.History.Audit.{IsAudit, Audit-IsAudit, Audit-mem, Progress}
use pruebas_personalizadas.Jobs.History.Operations.{
  Fits, queue_activity_job-Progress, queue_submission_job-Progress, set_submission_state-Progress,
  save_job_status-Progress,
}
use pruebas_personalizadas.Jobs.History.Cancellations.{
  request_job_cancel-Progress, complete_job_cancellation-Progress,
}
use pruebas_personalizadas.Jobs.History.Continuations.{
  schedule_job_retry-Progress, schedule_job_resume-Progress,
}
use pruebas_personalizadas.Jobs.History.Recovery.{fail_queued_dispatch-Progress}
use pruebas_personalizadas.Jobs.History.Claims.{
  reconcile_stale_jobs-Progress, claim_next_job-Progress,
}
use pruebas_personalizadas.Jobs.History.Publication.{
  finalize_submission_assessment-Progress, approve_assessment_atomic-Progress,
}

module _ {F : Type 0} where
  pub data Move (r : Reports) (before after : Database F) : Type 0 where
    queue_activity :
        (now : ℕ) (status : JobStatus F) (allowed : List String)
        → AtMost r status.attempt 3
        → queue_activity_job now status allowed before ≡ ok after
        → Move r before after
    queue_submission :
        (now : ℕ) (status : JobStatus F) (state : ProcessingState F) (version : ℕ)
        → AtMost r status.attempt 3
        → queue_submission_job now status state version before ≡ ok after
        → Move r before after
    set_state :
        (now : ℕ) (state : ProcessingState F)
        → set_submission_state now state before ≡ ok after
        → Move r before after
    save_status :
        (now : ℕ) (status : JobStatus F) (kind : Option JobKind)
        → Fits r status before
        → save_job_status now status kind before ≡ ok after
        → Move r before after
    request_cancel :
        (job_id tenant_id actor_id control_id reason_code : String) (now : ℕ)
        → request_job_cancel job_id tenant_id actor_id control_id reason_code now before ≡ ok after
        → Move r before after
    complete_cancel :
        (job_id tenant_id : String) (now : ℕ)
        → complete_job_cancellation job_id tenant_id now before ≡ ok after
        → Move r before after
    retry :
        (job_id tenant_id : String) (c : FailureClass) (limit : Option ℕ) (request : Continuation)
        (now : ℕ)
        → schedule_job_retry job_id tenant_id c limit request now before ≡ ok after
        → Move r before after
    resume :
        (job_id tenant_id : String) (request : Continuation) (now : ℕ)
        → schedule_job_resume job_id tenant_id request now before ≡ ok after
        → Move r before after
    fail_dispatch :
        (job_id tenant_id : String) (failure : Diagnostic) (c : FailureClass) (now : ℕ)
        {done : Bool}
        → fail_queued_dispatch job_id tenant_id failure c now before ≡ ok (done, after)
        → Move r before after
    reconcile :
        (id_lt : String → String → Bool) (skipped : JobRow F → Bool) (lease now : ℕ) {n : ℕ}
        → reconcile_stale_jobs id_lt skipped lease now before ≡ ok (n, after)
        → Move r before after
    claim :
        (id_lt : String → String → Bool) (skipped : JobRow F → Bool) (lease reconciled_at now : ℕ)
        {taken : Option (JobRow F)}
        → IsOrder id_lt
        → claim_next_job id_lt skipped lease reconciled_at now before ≡ ok (taken, after)
        → Move r before after
    finalize :
        (one : F) (job_id tenant_id : String) (assessment : AssessmentRow) (guide : GuideRow)
        (now : ℕ) {done : Bool}
        → finalize_submission_assessment one job_id tenant_id assessment guide now before
          ≡ ok (done, after)
        → Move r before after
    approve :
        (event_id etag : String) (approved : AssessmentRow) (actor_id : String)
        → approve_assessment_atomic event_id etag approved actor_id before ≡ ok after
        → Move r before after

  pub data History (r : Reports) (start : Database F) : Database F → Type 0 where
    here : History r start start
    next : {db after : Database F} → History r start db → Move r db after → History r start after

  pub Move-Progress :
      {r : Reports}
      → {before after : Database F} → IsTable r before.jobs
      → Move r before after
      → Progress r before after
  Move-Progress t (Move.queue_activity now status allowed few h) =
      queue_activity_job-Progress now status allowed _ few h
  Move-Progress t (Move.queue_submission now status state version few h) =
      queue_submission_job-Progress now status state version _ few h
  Move-Progress t (Move.set_state now state h) = set_submission_state-Progress now state _ h
  Move-Progress t (Move.save_status now status kind fits h) =
      save_job_status-Progress now status kind _ fits h
  Move-Progress t (Move.request_cancel j n a c r now h) =
      request_job_cancel-Progress j n a c r now _ h
  Move-Progress t (Move.complete_cancel j n now h) = complete_job_cancellation-Progress j n now _ h
  Move-Progress t (Move.retry j n c limit request now h) =
      schedule_job_retry-Progress j n c limit request now _ t.sound h
  Move-Progress t (Move.resume j n request now h) =
      schedule_job_resume-Progress j n request now _ t.sound h
  Move-Progress t (Move.fail_dispatch j n failure c now h) =
      fail_queued_dispatch-Progress j n failure c now _ h
  Move-Progress t (Move.reconcile id_lt skipped lease now h) =
      reconcile_stale_jobs-Progress id_lt skipped lease now _ t h
  Move-Progress t (Move.claim id_lt skipped lease at now order h) =
      claim_next_job-Progress id_lt skipped lease at now _ t order h
  Move-Progress t (Move.finalize one j n assessment guide now h) =
      finalize_submission_assessment-Progress one j n assessment guide now _ h
  Move-Progress t (Move.approve e etag approved actor h) =
      approve_assessment_atomic-Progress e etag approved actor _ h

  -- What holds of a database between two transactions.
  pub record IsConsistent (r : Reports) (db : Database F) : Type 0 where
    pub jobs : IsTable r db.jobs
    pub controls : IsAudit db.controls

  Move-IsConsistent :
      {r : Reports}
      → {before after : Database F} → IsConsistent r before
      → Move r before after
      → IsConsistent r after
  Move-IsConsistent c m =
      let p = Move-Progress c.jobs m in
      record { jobs = Change-IsTable p.jobs c.jobs; controls = Audit-IsAudit p.controls c.controls }

  -- Every move keeps a database consistent, and so does a history.
  pub History-keeps :
      {r : Reports}
      → {start db : Database F} → IsConsistent r start
      → History r start db
      → IsConsistent r db
  History-keeps c here = c
  History-keeps c (next h m) = Move-IsConsistent (History-keeps c h) m

  -- Every row lives on in a history.
  pub History-lives :
      {r : Reports}
      → {start db : Database F} → IsConsistent r start
      → History r start db
      → LivesOn r start.jobs db.jobs
  History-lives c here = λ row m. (row, m, Evolves-refl row)
  History-lives c (next h m) =
      let before = History-keeps c h in
      LivesOn-trans (History-lives c h)
        (Change-LivesOn (Move-Progress before.jobs m).jobs before.jobs)

  -- Nor does it lose a control record.
  pub History-keeps_controls :
      {r : Reports}
      → {start db : Database F} → IsConsistent r start
      → History r start db
      → (control : ControlRecord) → Memᴰ control start.controls
      → Memᴰ control db.controls
  History-keeps_controls c here control m = m
  History-keeps_controls c (next h x) control m =
      Audit-mem (Move-Progress (History-keeps c h).jobs x).controls
        (History-keeps_controls c h control m)

  -- The job that a later database has under the key of an earlier one has evolved from it.
  pub History-Evolves :
      {r : Reports}
      → {start db : Database F} {old new : JobRow F} → IsConsistent r start
      → History r start db
      → Memᴰ old start.jobs
      → Memᴰ new db.jobs
      → new.id ≡ old.id
      → Evolves r old new
  History-Evolves {r} {db = db} {old = old} c h m n e =
      let (later, k, g) = History-lives c h old m in
      subst (λ x. Evolves r old x)
        (same_row db.jobs (History-keeps c h).jobs.once k n (g.same_id ∙ sym e)) g

  -- Every history, whatever attempts its workers report, keeps a database consistent: each job has a key of
  -- its own and a limit of 1 to 10 attempts; a cancelled job stands as failed by cancellation, with its
  -- time; and the control records are each accepted by their contract, with an id and an attempt of their
  -- job that no other has.
  pub History-IsConsistent :
      {start db : Database F}
      → IsConsistent Reports.any_attempt start
      → History Reports.any_attempt start db
      → IsConsistent Reports.any_attempt db
  History-IsConsistent c h = History-keeps c h

  -- No history, whatever attempts its workers report, loses a job of a consistent database: its id, tenant,
  -- kind, aggregate and limit stay, and its cancellation is never taken back.
  pub History-LivesOn :
      {start db : Database F}
      → IsConsistent Reports.any_attempt start
      → History Reports.any_attempt start db
      → LivesOn Reports.any_attempt start.jobs db.jobs
  History-LivesOn c h = History-lives c h
