-- ===== src/Jobs/History/Operations.antt =====
-- Every operation on the jobs makes progress: it writes rows that evolve, inserts sound rows, and only
-- adds to the control records.
use pruebas_personalizadas.Prelude.Common.{
  ℕ, ◌≡◌, refl, sym, ap, subst, String, Option, none, some, List, true, inl, inr, arith,
}
use pruebas_personalizadas.Prelude.Tests.{Option-cases, not-false}
use pruebas_personalizadas.Prelude.Eq.{string_eq, option_eq}
use pruebas_personalizadas.Prelude.Result.{ok, >>=-eq-ok, reject->>-eq-ok, ok-injective}
use pruebas_personalizadas.Prelude.Rows.{get_row, get_row-some}
use pruebas_personalizadas.Jobs.Tables.{
  run_status_eq, control_state_eq, JobKind, JobRow, JobStatus, ProcessingState, Database, job_row,
  submission_row, activity_row,
}
use pruebas_personalizadas.Jobs.Queue.{
  job_of_status, queue_activity_job, queue_submission_job, set_submission_state, report,
  save_job_status, is_projected,
}
use pruebas_personalizadas.Jobs.History.Change.{Reports, AtMost, Evolves-of, IsSound, Evolves}
use pruebas_personalizadas.Jobs.History.Audit.{Progress}
use pruebas_personalizadas.Jobs.History.Steps.{Progress-same, add_job-Progress, with_job-Progress}

module _ {F : Type 0} where
  job_of_status-IsSound :
      {r : Reports}
      → (now : ℕ) (status : JobStatus F) (kind : JobKind) → AtMost r status.attempt 3
      → IsSound r (job_of_status now status kind)
  unfolding job_of_status
  job_of_status-IsSound now status kind few = record {
    used = few;
    some_attempt = omega arith;
    few_attempts = omega arith;
    projected = refl;
  }

  pub queue_activity_job-Progress :
      {r : Reports}
      → (now : ℕ) (status : JobStatus F) (allowed : List String) (db : Database F)
        {after : Database F}
      → AtMost r status.attempt 3
      → queue_activity_job now status allowed db ≡ ok after
      → Progress r db after
  unfolding queue_activity_job
  queue_activity_job-Progress now status allowed db few h =
      let (activity, _, h1) = >>=-eq-ok _ _ h in
      let (_, h2) = reject->>-eq-ok _ _ _ h1 in
      let (_, h3) = reject->>-eq-ok _ _ _ h2 in
      let p = add_job-Progress _ _ h3 (job_of_status-IsSound now status JobKind.activity few) in
      record { jobs = p.jobs; controls = p.controls }

  pub queue_submission_job-Progress :
      {r : Reports}
      → (now : ℕ) (status : JobStatus F) (state : ProcessingState F) (version : ℕ) (db : Database F)
        {after : Database F}
      → AtMost r status.attempt 3
      → queue_submission_job now status state version db ≡ ok after
      → Progress r db after
  unfolding queue_submission_job
  queue_submission_job-Progress now status state version db few h =
      let (submission, _, h1) = >>=-eq-ok _ _ h in
      let (_, h2) = reject->>-eq-ok _ _ _ h1 in
      let (_, h3) = reject->>-eq-ok _ _ _ h2 in
      let p = add_job-Progress _ _ h3 (job_of_status-IsSound now status JobKind.submission few) in
      record { jobs = p.jobs; controls = p.controls }

  pub set_submission_state-Progress :
      {r : Reports}
      → (now : ℕ) (state : ProcessingState F) (db : Database F) {after : Database F}
      → set_submission_state now state db ≡ ok after
      → Progress r db after
  unfolding set_submission_state
  set_submission_state-Progress now state db h =
      let (row, _, e) = >>=-eq-ok _ _ h in
      Progress-same (ap (λ (x : Database F). x.jobs) (sym (ok-injective e)))
        (ap (λ (x : Database F). x.controls) (sym (ok-injective e)))

  -- Where the reports of workers are to keep to the attempts, one that has not shrunk and is within the limit
  -- of the job.
  pub record Fits (r : Reports) (status : JobStatus F) (db : Database F) : Type 0 where
    pub known :
        (row : JobRow F)
        → get_row status.job_id db.jobs ≡ some row
        → AtMost r row.attempt status.attempt × AtMost r status.attempt row.max_attempts
    pub fresh : get_row status.job_id db.jobs ≡ none → AtMost r status.attempt 3

  -- Any report at all will do where any attempt is taken.
  pub any_attempt-Fits :
      (status : JobStatus F) (db : Database F) → Fits Reports.any_attempt status db
  any_attempt-Fits status db = record { known = λ row e. (tt, tt); fresh = λ e. tt }

  report-Evolves :
      {r : Reports}
      → (status : JobStatus F) (row : JobRow F) → AtMost r row.attempt status.attempt
      → Evolves r row (report status row)
  unfolding report
  report-Evolves status row le = Evolves-of _ _ refl (le) (omega arith)

  report-IsSound :
      {r : Reports}
      → (status : JobStatus F) (row : JobRow F) → AtMost r status.attempt row.max_attempts
      → is_projected (report status row) ≡ true
      → IsSound r row
      → IsSound r (report status row)
  unfolding report
  report-IsSound status row le p s = record {
    used = le;
    some_attempt = s.some_attempt;
    few_attempts = s.few_attempts;
    projected = p;
  }

  pub save_job_status-Progress :
      {r : Reports}
      → (now : ℕ) (status : JobStatus F) (kind : Option JobKind) (db : Database F)
        {after : Database F}
      → Fits r status db
      → save_job_status now status kind db ≡ ok after
      → Progress r db after
  unfolding save_job_status
  save_job_status-Progress {r} now status kind db {after} fits h =
      elim (Option-cases (get_row status.job_id db.jobs)) [
        | inl n ↦
            let (k, _, h1) = >>=-eq-ok _ _ (rw (n, save_job_status) at h) in
            add_job-Progress _ _ h1 (job_of_status-IsSound now status k (fits.fresh n))
        | inr (row, e) ↦
            let (_, h1) = reject->>-eq-ok _ _ _ (rw (e, save_job_status) at h) in
            let (_, h2) = reject->>-eq-ok _ _ _ h1 in
            let (p, h3) = reject->>-eq-ok _ _ _ h2 in
            let (grown, within) = fits.known row e in
            subst (λ x. Progress r db x) (ok-injective h3)
              (with_job-Progress db (get_row-some status.job_id db.jobs e).0
                (report-Evolves status row grown) (report-IsSound status row within (not-false p)))
      ]
