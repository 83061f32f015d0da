-- ===== src/Jobs/History/Steps.antt =====
-- The parts of the operations: each writes or inserts one job, or leaves the jobs alone.
use pruebas_personalizadas.Prelude.Common.{
  ℕ, ◌≡◌, refl, sym, ap, subst, String, Option, none, some, inl, inr, Memᴰ,
}
use pruebas_personalizadas.Prelude.Tests.{Bool-cases, Option-cases}
use pruebas_personalizadas.Prelude.Eq.{◌==◌, string_eq, option_eq}
use pruebas_personalizadas.Prelude.Result.{ok, >>=-eq-ok, reject->>-eq-ok, ok-injective}
use pruebas_personalizadas.Prelude.Rows.{select_one, select_one-some, get_row, get_row-none, put}
use pruebas_personalizadas.Contracts.Evidence.{Diagnostic}
use pruebas_personalizadas.Jobs.Tables.{
  run_status_eq, ControlState, control_state_eq, FailureClass, JobKind, JobRow, ControlRecord,
  Database, job_row, submission_row, activity_row,
}
use pruebas_personalizadas.Jobs.Queue.{found, add_job, with_job}
use pruebas_personalizadas.Jobs.Cancel.{
  create_control, add_job_control_record, lock_job, cancelled_row, release_aggregate,
  complete_cancellation,
}
use pruebas_personalizadas.Jobs.Worker.{fail_aggregate, failed_row, fail_job}
use pruebas_personalizadas.Jobs.History.Change.{Reports, Change, IsSound, Evolves}
use pruebas_personalizadas.Jobs.History.Audit.{Audit, Progress, Progress-trans}
use pruebas_personalizadas.Jobs.History.Evolving.{
  cancelled_row-Evolves, cancelled_row-IsSound, failed_row-Evolves, failed_row-IsSound,
}

pub found-eq-ok :
    {A : Type 0} (message : String) (row : Option A) {a : A}
    → found message row ≡ ok a
    → row ≡ some a
unfolding found
found-eq-ok message none h = cc
found-eq-ok message (some b) h = ap some (ok-injective h)

module _ {F : Type 0} where
  -- Two tables with the same jobs and records.
  pub Progress-same :
      {r : Reports}
      → {before after : Database F} → after.jobs ≡ before.jobs
      → after.controls ≡ before.controls
      → Progress r before after
  Progress-same {r} {before} e g = record {
    jobs = subst (λ x. Change r before.jobs x) (sym e) Change.keep;
    controls = subst (λ x. Audit before.controls x) (sym g) Audit.keep;
  }

  pub add_job-Progress :
      {r : Reports}
      → (row : JobRow F) (db : Database F) {after : Database F} → add_job row db ≡ ok after
      → IsSound r row
      → Progress r db after
  unfolding add_job
  add_job-Progress {r} row db h s =
      let (free, e) = reject->>-eq-ok _ _ _ h in
      let fresh : get_row row.id db.jobs ≡ none = elim (Option-cases (get_row row.id db.jobs)) [
        | inl n ↦ n
        | inr (x, q) ↦ cc
      ] in
      subst (λ x. Progress r db x) (ok-injective e)
        (record {
          jobs = Change.insert row (get_row-none row.id db.jobs fresh) s;
          controls = Audit.keep;
        })

  -- The write of a row that has evolved from one of the table.
  pub with_job-Progress :
      {r : Reports}
      → (db : Database F) {old new : JobRow F} → Memᴰ old db.jobs
      → Evolves r old new
      → (IsSound r old → IsSound r new)
      → Progress r db (with_job new db)
  with_job-Progress {r} db {old} {new} m e s = record {
    jobs = Change.write old new m e s;
    controls = Audit.keep;
  }

  pub lock_job-mem :
      (job_id tenant_id : String) (db : Database F) {row : JobRow F}
      → lock_job job_id tenant_id db ≡ ok row
      → Memᴰ row db.jobs × (row.id ≡ job_id) × (row.tenant_id ≡ tenant_id)
  unfolding lock_job
  lock_job-mem job_id tenant_id db h = select_one-some job_id tenant_id db.jobs (found-eq-ok _ _ h)

  pub add_job_control_record-Progress :
      {r : Reports}
      → (control : ControlRecord) (db : Database F) {after : Database F}
      → create_control control ≡ ok control
      → add_job_control_record control db ≡ ok after
      → Progress r db after
  unfolding add_job_control_record
  add_job_control_record-Progress {r} control db made h =
      let (free, e) = reject->>-eq-ok _ _ _ h in
      subst (λ x. Progress r db x) (ok-injective e)
        (record { jobs = Change.keep; controls = Audit.append control free made })

  -- What happens to the aggregate of a job leaves the jobs and the records alone.
  pub release_aggregate-Progress :
      {r : Reports}
      → (kind : JobKind) (now : ℕ) (row : JobRow F) (db : Database F) {after : Database F}
      → release_aggregate kind now row db ≡ ok after
      → Progress r db after
  unfolding release_aggregate
  release_aggregate-Progress JobKind.activity now row db h =
      let (activity, f, e) = >>=-eq-ok _ _ h in
      Progress-same (ap (λ (x : Database F). x.jobs) (sym (ok-injective e)))
        (ap (λ (x : Database F). x.controls) (sym (ok-injective e)))
  release_aggregate-Progress JobKind.submission now row db h =
      let (submission, f, e) = >>=-eq-ok _ _ h in
      Progress-same (ap (λ (x : Database F). x.jobs) (sym (ok-injective e)))
        (ap (λ (x : Database F). x.controls) (sym (ok-injective e)))
  release_aggregate-Progress {r} JobKind.question_action now row db h =
      subst (λ x. Progress r db x) (ok-injective h) (Progress-same refl refl)

  pub release_aggregate-jobs :
      (kind : JobKind) (now : ℕ) (row : JobRow F) (db : Database F) {after : Database F}
      → release_aggregate kind now row db ≡ ok after
      → after.jobs ≡ db.jobs
  unfolding release_aggregate
  release_aggregate-jobs JobKind.activity now row db h =
      ap (λ (x : Database F). x.jobs) (sym (ok-injective (>>=-eq-ok _ _ h).2))
  release_aggregate-jobs JobKind.submission now row db h =
      ap (λ (x : Database F). x.jobs) (sym (ok-injective (>>=-eq-ok _ _ h).2))
  release_aggregate-jobs JobKind.question_action now row db h =
      ap (λ (x : Database F). x.jobs) (sym (ok-injective h))

  pub fail_aggregate-same :
      (kind : JobKind) (failure : Diagnostic) (now : ℕ) (row : JobRow F) (db : Database F)
      → ((fail_aggregate kind failure now row db).jobs ≡ db.jobs)
        × ((fail_aggregate kind failure now row db).controls ≡ db.controls)
  unfolding fail_aggregate
  fail_aggregate-same JobKind.question_action failure now row db = (refl, refl)
  fail_aggregate-same JobKind.activity failure now row db =
      elim (Option-cases (select_one row.aggregate_id row.tenant_id db.activities)) [
        | inl n ↦ rw n (refl, refl)
        | inr (x, e) ↦ rw e (refl, refl)
      ]
  fail_aggregate-same JobKind.submission failure now row db =
      elim (Option-cases (select_one row.aggregate_id row.tenant_id db.submissions)) [
        | inl n ↦ rw n (refl, refl)
        | inr (x, e) ↦ rw e (elim (Bool-cases (x.active_job_id == some row.id)) [
          | inl t ↦ rw t (refl, refl)
          | inr f ↦ rw f (refl, refl)
        ])
      ]

  -- A cancellation, on a row of the table.
  pub complete_cancellation-Progress :
      {r : Reports}
      → (now : ℕ) (row : JobRow F) (db : Database F) {after : Database F} → Memᴰ row db.jobs
      → complete_cancellation now row db ≡ ok after
      → Progress r db after
  unfolding complete_cancellation
  complete_cancellation-Progress now row db m h =
      Progress-trans
        (with_job-Progress db m (cancelled_row-Evolves now row) (cancelled_row-IsSound now row))
        (release_aggregate-Progress _ _ _ _ h)

  pub complete_cancellation-jobs :
      (now : ℕ) (row : JobRow F) (db : Database F) {after : Database F}
      → complete_cancellation now row db ≡ ok after
      → after.jobs ≡ put (cancelled_row now row) db.jobs
  unfolding complete_cancellation
  complete_cancellation-jobs now row db h = release_aggregate-jobs _ _ _ _ h

  -- A failure, on an active row of the table.
  pub fail_job-Progress :
      {r : Reports}
      → (c : FailureClass) (failure : Diagnostic) (now : ℕ) (row : JobRow F) (db : Database F)
      → Memᴰ row db.jobs
      → row.control_state ≡ ControlState.active
      → Progress r db (fail_job c failure now row db)
  fail_job-Progress c failure now row db m a =
      let failed = failed_row c failure now row in
      let same = fail_aggregate-same failed.kind failure now failed (with_job failed db) in
      Progress-trans
        (with_job-Progress db m (failed_row-Evolves c failure now row)
          (failed_row-IsSound c failure now row a))
        (Progress-same same.0 same.1)
