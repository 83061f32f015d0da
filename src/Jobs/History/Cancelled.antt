-- ===== src/Jobs/History/Cancelled.antt =====
-- A job whose cancellation was requested: what every later operation answers on it.
use pruebas_personalizadas.Prelude.Common.{
  ℕ, ◌≤◌, ◌≡◌, refl, ap, subst, ◌∙◌, String, Option, none, some, true, false, ◌&&◌, inl, inr, Memᴰ,
  arith,
}
use pruebas_personalizadas.Prelude.Tests.{if◌then◌else◌, Bool-cases, Option-cases, not-eq-true}
use pruebas_personalizadas.Prelude.Eq.{◌==◌, string_eq, eq_of_true}
use pruebas_personalizadas.Prelude.Result.{ok, >>=-eq-ok, >>-eq-ok, reject->>-eq-ok, ok-injective}
use pruebas_personalizadas.Prelude.Rows.{ids, get_row, get_row-some, get_row-none}
use pruebas_personalizadas.Prelude.Lists.{any, any-eq-false, mem-map}
use pruebas_personalizadas.Contracts.Evidence.{Diagnostic}
use pruebas_personalizadas.Jobs.Documents.{AssessmentRow, GuideRow}
use pruebas_personalizadas.Jobs.Tables.{
  RunStatus, run_status_eq, ControlState, control_state_eq, FailureClass, JobKind, JobRow,
  JobStatus, Database, job_row,
}
use pruebas_personalizadas.Jobs.Queue.{cancels, save_job_status}
use pruebas_personalizadas.Jobs.Cancel.{lock_job, complete_cancellation}
use pruebas_personalizadas.Jobs.Continue.{
  Continuation, check_retry, check_resume, retry_source, resume_source, schedule_job_retry,
  schedule_job_resume,
}
use pruebas_personalizadas.Jobs.Worker.{is_claimable, is_unclaimed, fail_queued_dispatch}
use pruebas_personalizadas.Jobs.Publish.{yield_to_cancellation, finalize_submission_assessment}
use pruebas_personalizadas.Jobs.History.Change.{Reports, rank}
use pruebas_personalizadas.Jobs.History.Steps.{lock_job-mem}
use pruebas_personalizadas.Jobs.History.Continuations.{as_conflict-eq-ok}
use pruebas_personalizadas.Jobs.History.Moves.{
  IsConsistent, History, History-lives, History-Evolves,
}

cancels_of_rank : (c d : ControlState) → cancels c ≡ true → rank c ≤ rank d → cancels d ≡ true
cancels_of_rank c ControlState.active t le = absurd (not_active c t le)
  where
    not_active : (c : ControlState) → cancels c ≡ true → ¬ (rank c ≤ 0)
    not_active ControlState.active t le = cc
    not_active ControlState.cancel_requested t le = omega arith
    not_active ControlState.cancelled t le = omega arith
cancels_of_rank c ControlState.cancel_requested t le = refl
cancels_of_rank c ControlState.cancelled t le = refl

cancels-not_active : (c : ControlState) → cancels c ≡ true → (c == ControlState.active) ≡ false
cancels-not_active ControlState.active t = cc
cancels-not_active ControlState.cancel_requested t = refl
cancels-not_active ControlState.cancelled t = refl

module _ {F : Type 0} where
  -- A report of success on a job.
  abbrev pub success_of : String → JobStatus F → JobStatus F
  success_of job_id status = record status { job_id = job_id; status = RunStatus.succeeded }

  -- What the operations answer on a job that is being cancelled, or was.
  pub record IsRefused (job_id tenant_id : String) (db : Database F) : Type 0 where
    pub success :
        (now : ℕ) (status : JobStatus F) (kind : Option JobKind) {after : Database F}
        → ¬ (save_job_status now (success_of job_id status) kind db ≡ ok after)
    pub retried :
        (c : FailureClass) (limit : Option ℕ) (request : Continuation) (now : ℕ)
        {after : Database F}
        → ¬ (schedule_job_retry job_id tenant_id c limit request now db ≡ ok after)
    pub resumed :
        (request : Continuation) (now : ℕ) {after : Database F}
        → ¬ (schedule_job_resume job_id tenant_id request now db ≡ ok after)
    pub dispatched :
        (failure : Diagnostic) (c : FailureClass) (now : ℕ) {after : Database F}
        → ¬ (fail_queued_dispatch job_id tenant_id failure c now db ≡ ok (true, after))
    pub published :
        (one : F) (assessment : AssessmentRow) (guide : GuideRow) (now : ℕ) {after : Database F}
        → ¬ (
            finalize_submission_assessment one job_id tenant_id assessment guide now db
            ≡ ok (true, after))
    pub claimed : (now : ℕ) → any (λ row. row.id == job_id && is_claimable now row) db.jobs ≡ false

  -- `Cancels` of every row under a key.
  abbrev IsCancelling : String → Database F → Type 0
  IsCancelling job_id db =
      (row : JobRow F) → Memᴰ row db.jobs → row.id ≡ job_id → cancels row.control_state ≡ true

  not_success :
      (job_id : String) (db : Database F) (now : ℕ) (status : JobStatus F) (kind : Option JobKind)
      {after : Database F} {row : JobRow F}
      → IsCancelling job_id db
      → status.job_id ≡ job_id
      → status.status ≡ RunStatus.succeeded
      → get_row status.job_id db.jobs ≡ some row
      → ¬ (save_job_status now status kind db ≡ ok after)
  unfolding save_job_status
  not_success job_id db now status kind {row = row} all i s e h =
      let (m, k) = get_row-some status.job_id db.jobs e in
      let (_, h1) = reject->>-eq-ok _ _ _ (rw (e, save_job_status) at h) in
      let (f, _) = reject->>-eq-ok _ _ _ h1 in let t = all row m (k ∙ i) in cc (rw (t, s) at f)

  not_retried :
      (job_id tenant_id : String) (db : Database F) (c : FailureClass) (limit : Option ℕ)
      (request : Continuation) (now : ℕ) {after : Database F}
      → IsCancelling job_id db
      → ¬ (schedule_job_retry job_id tenant_id c limit request now db ≡ ok after)
  unfolding schedule_job_retry retry_source check_retry
  not_retried job_id tenant_id db c limit request now all h =
      let (_, h1) = reject->>-eq-ok _ _ _ h in
      let (_, h2) = reject->>-eq-ok _ _ _ h1 in
      let (_, h3) = reject->>-eq-ok _ _ _ h2 in
      let (source, l, h4) = >>=-eq-ok (lock_job job_id tenant_id db) _ (as_conflict-eq-ok _ _ h3) in
      let ((_, g), _) = >>-eq-ok _ _ h4 in
      let (f, _) = reject->>-eq-ok _ _ _ g in
      let (m, i, _) = lock_job-mem job_id tenant_id db l in
      cc (rw (cancels-not_active source.control_state (all source m i)) at f)

  not_resumed :
      (job_id tenant_id : String) (db : Database F) (request : Continuation) (now : ℕ)
      {after : Database F}
      → IsCancelling job_id db
      → ¬ (schedule_job_resume job_id tenant_id request now db ≡ ok after)
  unfolding schedule_job_resume resume_source check_resume
  not_resumed job_id tenant_id db request now all h =
      let (_, h1) = reject->>-eq-ok _ _ _ h in
      let (source, l, h2) = >>=-eq-ok (lock_job job_id tenant_id db) _ (as_conflict-eq-ok _ _ h1) in
      let ((_, g), _) = >>-eq-ok _ _ h2 in
      let (f, _) = reject->>-eq-ok _ _ _ g in
      let (m, i, _) = lock_job-mem job_id tenant_id db l in
      cc (rw (cancels-not_active source.control_state (all source m i)) at f)

  not_unclaimed : (row : JobRow F) → cancels row.control_state ≡ true → is_unclaimed row ≡ false
  not_unclaimed row t = rw (cancels-not_active row.control_state t) (ground arith)

  not_dispatched :
      (job_id tenant_id : String) (db : Database F) (failure : Diagnostic) (c : FailureClass)
      (now : ℕ) {after : Database F}
      → IsCancelling job_id db
      → ¬ (fail_queued_dispatch job_id tenant_id failure c now db ≡ ok (true, after))
  unfolding fail_queued_dispatch
  not_dispatched job_id tenant_id db failure c now all h =
      let (row, l, h1) = >>=-eq-ok (lock_job job_id tenant_id db) _ h in
      let (m, i, _) = lock_job-mem job_id tenant_id db l in
      cc (ap (λ x. x.0) (ok-injective (rw (not_unclaimed row (all row m i), if◌then◌else◌) at h1)))

  yields_false :
      (now : ℕ) (job : JobRow F) (db : Database F) {after : Database F}
      → ¬ (yield_to_cancellation now job db ≡ ok (true, after))
  unfolding yield_to_cancellation
  yields_false now job db h =
      elim (Bool-cases (job.control_state == ControlState.cancel_requested)) [
        | inl t ↦
            let (x, _, h1) =
              >>=-eq-ok (complete_cancellation now job db) _ (rw (t, if◌then◌else◌) at h) in
            cc (ap (λ y. y.0) (ok-injective h1))
        | inr f ↦ cc (ap (λ y. y.0) (ok-injective (rw (f, if◌then◌else◌) at h)))
      ]

  not_published :
      (one : F) (job_id tenant_id : String) (db : Database F) (assessment : AssessmentRow)
      (guide : GuideRow) (now : ℕ) {after : Database F}
      → IsCancelling job_id db
      → ¬ (
          finalize_submission_assessment one job_id tenant_id assessment guide now db
          ≡ ok (true, after))
  unfolding finalize_submission_assessment
  not_published one job_id tenant_id db assessment guide now all h =
      let (_, h1) = reject->>-eq-ok _ _ _ h in
      let (job, l, h2) = >>=-eq-ok (lock_job job_id tenant_id db) _ h1 in
      let (submission, _, h3) = >>=-eq-ok _ _ h2 in
      let (m, i, _) = lock_job-mem job_id tenant_id db l in
      yields_false now job db
        (rw (not-eq-true (cancels-not_active job.control_state (all job m i)), if◌then◌else◌) at h3)

  -- A job of an earlier database is found in a later one.
  later_there :
      {r : Reports}
      → {start db : Database F} {row : JobRow F} → IsConsistent r start
      → History r start db
      → Memᴰ row start.jobs
      → ¬ (get_row row.id db.jobs ≡ none)
  later_there {db = db} {row = row} c h m e =
      let (later, k, g) = History-lives c h row m in
      get_row-none row.id db.jobs e
        (subst (λ i. Memᴰ i (ids db.jobs)) g.same_id (mem-map (λ (x : JobRow F). x.id) db.jobs k))

  -- Once the cancellation of a job of a consistent database is requested, no later database of any
  -- history reports its success, retries or resumes it, fails its dispatch, publishes its assessment or
  -- lets it be claimed.
  pub History-IsRefused :
      {r : Reports}
      → {start db : Database F} (row : JobRow F) → IsConsistent r start
      → Memᴰ row start.jobs
      → cancels row.control_state ≡ true
      → History r start db
      → IsRefused row.id row.tenant_id db
  History-IsRefused {db = db} row c m t h =
      let all : IsCancelling row.id db = λ new n e.
        cancels_of_rank row.control_state new.control_state t
          ((History-Evolves c h m n e).cancels_on) in
      record {
        success = λ now status kind e. elim (Option-cases (get_row row.id db.jobs)) [
          | inl none_there ↦ absurd (later_there c h m none_there)
          | inr (x, there) ↦
              not_success row.id db now (success_of row.id status) kind all refl refl there e
        ];
        retried =
            λ a limit request now e. not_retried row.id row.tenant_id db a limit request now all e;
        resumed = λ request now e. not_resumed row.id row.tenant_id db request now all e;
        dispatched = λ failure a now e. not_dispatched row.id row.tenant_id db failure a now all e;
        published = λ one assessment guide now e.
            not_published one row.id row.tenant_id db assessment guide now all e;
        claimed = λ now. any-eq-false _ db.jobs (λ new n. elim (Bool-cases (new.id == row.id)) [
          | inr f ↦ rw f refl
          | inl e ↦ rw (e, not_unclaimed new (all new n (eq_of_true e))) refl
        ]);
      }
