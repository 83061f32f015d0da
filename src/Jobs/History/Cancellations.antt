-- ===== src/Jobs/History/Cancellations.antt =====
-- The cancellation of a job makes progress.
use pruebas_personalizadas.Prelude.Common.{
  ℕ, ◌≤◌, ◌≡◌, refl, sym, ap, subst, ◌∙◌, String, Bool, true, false, inl, inr, Memᴰ, arith,
}
use pruebas_personalizadas.Prelude.Tests.{if◌then◌else◌, Bool-cases}
use pruebas_personalizadas.Prelude.Eq.{◌==◌, string_eq, option_eq}
use pruebas_personalizadas.Prelude.Lists.{mem-map}
use pruebas_personalizadas.Prelude.Result.{ok, >>=-eq-ok, >>-eq-ok, reject->>-eq-ok, ok-injective}
use pruebas_personalizadas.Prelude.Rows.{put-mem_new}
use pruebas_personalizadas.Jobs.Tables.{
  RunStatus, run_status_eq, ControlState, control_state_eq, job_kind_eq, JobRow, ControlRecord,
  Database, job_row, submission_row, activity_row,
}
use pruebas_personalizadas.Jobs.Queue.{cancels}
use pruebas_personalizadas.Jobs.Cancel.{
  create_control, add_job_control_record, lock_job, requested_row, cancel_active,
  request_job_cancel, complete_cancellation, complete_job_cancellation,
}
use pruebas_personalizadas.Jobs.History.Change.{
  Reports, at_most, Evolves-of, IsSound, Evolves, rank,
}
use pruebas_personalizadas.Jobs.History.Audit.{Progress, Progress-trans}
use pruebas_personalizadas.Jobs.History.Steps.{
  Progress-same, with_job-Progress, lock_job-mem, add_job_control_record-Progress,
  complete_cancellation-Progress,
}

-- A record that was made is the one that was given.
pub create_control-eq-ok :
    (control : ControlRecord) {made : ControlRecord}
    → create_control control ≡ ok made
    → create_control control ≡ ok control
unfolding create_control
create_control-eq-ok control h =
    let (_, h1) = reject->>-eq-ok _ _ _ h in
    let (_, h2) = reject->>-eq-ok _ _ _ h1 in
    let (_, h3) = >>-eq-ok _ _ h2 in
    let (_, h4) = >>-eq-ok _ _ h3 in
    let (_, h5) = >>-eq-ok _ _ h4 in h ∙ ap ok (sym (ok-injective h5))

module _ {F : Type 0} where
  -- A record that is made and then added.
  pub add_control-Progress :
      {r : Reports}
      → (control : ControlRecord) (db : Database F) {made : ControlRecord} {after : Database F}
      → create_control control ≡ ok made
      → add_job_control_record made db ≡ ok after
      → Progress r db after
  add_control-Progress {r} control db {after} c h =
      let own = create_control-eq-ok control c in
      add_job_control_record-Progress control db own
        (subst (λ x. add_job_control_record x db ≡ ok after) (ok-injective (sym c ∙ own)) h)

  requested_row-Evolves :
      {r : Reports}
      → (actor_id : String) (now : ℕ) (row : JobRow F) → cancels row.control_state ≡ false
      → Evolves r row (requested_row actor_id now row)
  unfolding requested_row
  requested_row-Evolves actor_id now row f =
      Evolves-of _ _ refl (at_most _ _ _ (omega arith)) (go row.control_state f)
    where
      go : (c : ControlState) → cancels c ≡ false → rank c ≤ 1
      go ControlState.active f = omega arith
      go ControlState.cancel_requested f = cc
      go ControlState.cancelled f = cc

  requested_row-IsSound :
      {r : Reports}
      → (actor_id : String) (now : ℕ) (row : JobRow F) → IsSound r row
      → IsSound r (requested_row actor_id now row)
  unfolding requested_row
  requested_row-IsSound actor_id now row s = record {
    used = s.used;
    some_attempt = s.some_attempt;
    few_attempts = s.few_attempts;
    projected = refl;
  }

  add_job_control_record-jobs :
      (control : ControlRecord) (db : Database F) {after : Database F}
      → add_job_control_record control db ≡ ok after
      → after.jobs ≡ db.jobs
  unfolding add_job_control_record
  add_job_control_record-jobs control db h =
      ap (λ (x : Database F). x.jobs) (sym (ok-injective (reject->>-eq-ok _ _ _ h).1))

  cancel_active-Progress :
      {r : Reports}
      → (control_id actor_id reason_code : String) (now : ℕ) (row : JobRow F) (db : Database F)
        {after : Database F}
      → Memᴰ row db.jobs
      → cancels row.control_state ≡ false
      → cancel_active control_id actor_id reason_code now row db ≡ ok after
      → Progress r db after
  unfolding cancel_active
  cancel_active-Progress {r} control_id actor_id reason_code now row db {after} m f h =
      let (_, h1) = reject->>-eq-ok _ _ _ h in
      let (control, c, h2) = >>=-eq-ok _ _ h1 in
      let (noted, a, h3) = >>=-eq-ok (add_job_control_record _ _) _ h2 in
      let requested = requested_row actor_id now row in
      let p =
        with_job-Progress db m (requested_row-Evolves actor_id now row f)
          (requested_row-IsSound actor_id now row) in
      let q = Progress-trans p (add_control-Progress _ _ c a) in
      let there : Memᴰ requested noted.jobs =
        subst (λ x. Memᴰ requested x) (sym (add_job_control_record-jobs _ _ a))
          (put-mem_new requested db.jobs
            (unfold requested_row in mem-map (λ (x : JobRow F). x.id) db.jobs m)) in
      go (row.status == RunStatus.queued) noted h3 q
        (λ e. complete_cancellation-Progress now requested noted there e)
    where
      go :
          (b : Bool) (noted : Database F)
          → (if b
              then complete_cancellation now (requested_row actor_id now row) noted
              else ok noted)
            ≡ ok after
          → Progress r db noted
          → (complete_cancellation now (requested_row actor_id now row) noted ≡ ok after
              → Progress r noted after)
          → Progress r db after
      go true noted h p done = Progress-trans p (done h)
      go false noted h p done = subst (λ x. Progress r db x) (ok-injective h) p

  pub request_job_cancel-Progress :
      {r : Reports}
      → (job_id tenant_id actor_id control_id reason_code : String) (now : ℕ) (db : Database F)
        {after : Database F}
      → request_job_cancel job_id tenant_id actor_id control_id reason_code now db ≡ ok after
      → Progress r db after
  unfolding request_job_cancel
  request_job_cancel-Progress {r} job_id tenant_id actor_id control_id reason_code now db h =
      let (row, l, h1) = >>=-eq-ok (lock_job job_id tenant_id db) _ h in
      elim (Bool-cases (cancels row.control_state)) [
        | inl t ↦
            subst (λ x. Progress r db x) (ok-injective (rw (t, if◌then◌else◌) at h1))
              (Progress-same refl refl)
        | inr f ↦
            cancel_active-Progress control_id actor_id reason_code now row db
              (lock_job-mem job_id tenant_id db l).0 f (rw (f, if◌then◌else◌) at h1)
      ]

  pub complete_job_cancellation-Progress :
      {r : Reports}
      → (job_id tenant_id : String) (now : ℕ) (db : Database F) {after : Database F}
      → complete_job_cancellation job_id tenant_id now db ≡ ok after
      → Progress r db after
  unfolding complete_job_cancellation
  complete_job_cancellation-Progress {r} job_id tenant_id now db h =
      let (row, l, h1) = >>=-eq-ok (lock_job job_id tenant_id db) _ h in
      elim (Bool-cases (row.control_state == ControlState.cancelled)) [
        | inl t ↦
            subst (λ x. Progress r db x) (ok-injective (rw (t, if◌then◌else◌) at h1))
              (Progress-same refl refl)
        | inr f ↦
            let (_, h2) = reject->>-eq-ok _ _ _ (rw (f, if◌then◌else◌) at h1) in
            complete_cancellation-Progress now row db (lock_job-mem job_id tenant_id db l).0 h2
      ]
