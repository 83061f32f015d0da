-- ===== src/Jobs/History/Recovery.antt =====
-- The workers make progress: a dispatch that fails, the recovery of stale jobs, and a claim.
use mathlib.Core.List.{Nodup, Nodup-cons}
use pruebas_personalizadas.Prelude.Common.{
  ℕ, ◌≡◌, refl, sym, ap, subst, ◌∙◌, String, ◌⊎◌, List, [], ◌∷◌, Bool, true, not, inl, inr, Memᴰ,
}
use pruebas_personalizadas.Prelude.Tests.{if◌then◌else◌, Bool-cases, and-true}
use pruebas_personalizadas.Prelude.Eq.{◌==◌, string_eq, option_eq, eq_of_true}
use pruebas_personalizadas.Prelude.Lists.{mem-map}
use pruebas_personalizadas.Prelude.Result.{ok, >>=-eq-ok, ok-injective}
use pruebas_personalizadas.Prelude.Rows.{put, ids, put-mem_new, mem-put}
use pruebas_personalizadas.Contracts.Evidence.{Diagnostic}
use pruebas_personalizadas.Jobs.Tables.{
  RunStatus, run_status_eq, ControlState, control_state_eq, FailureClass, job_kind_eq, JobRow,
  Database, job_row, submission_row, activity_row,
}
use pruebas_personalizadas.Jobs.Queue.{with_job}
use pruebas_personalizadas.Jobs.Cancel.{lock_job, cancelled_row, complete_cancellation}
use pruebas_personalizadas.Jobs.Worker.{
  lease_expired, failed_row, fail_job, is_unclaimed, fail_queued_dispatch, reconcile_row,
  reconcile_rows,
}
use pruebas_personalizadas.Jobs.History.Audit.{Progress, Progress-trans}
use pruebas_personalizadas.Jobs.History.Steps.{
  Progress-same, lock_job-mem, complete_cancellation-Progress, fail_job-Progress,
  fail_aggregate-same, complete_cancellation-jobs,
}
use pruebas_personalizadas.Jobs.History.Evolving.{cancelled_row-Evolves, failed_row-Evolves}
-- A comparison of an enumeration with one of its values.
use pruebas_personalizadas.Jobs.History.Change.{Reports}

module _ {F : Type 0} where
  is_unclaimed-true :
      (row : JobRow F)
      → is_unclaimed row ≡ true
      → (row.status ≡ RunStatus.queued) × (row.control_state ≡ ControlState.active)
  is_unclaimed-true row h = let (p, q) = and-true h in (eq_of_true p, eq_of_true q)

  pub fail_queued_dispatch-Progress :
      {r : Reports}
      → (job_id tenant_id : String) (failure : Diagnostic) (c : FailureClass) (now : ℕ)
        (db : Database F) {done : Bool} {after : Database F}
      → fail_queued_dispatch job_id tenant_id failure c now db ≡ ok (done, after)
      → Progress r db after
  unfolding fail_queued_dispatch
  fail_queued_dispatch-Progress {r} job_id tenant_id failure c now db {done} {after} h =
      let (row, l, h1) = >>=-eq-ok (lock_job job_id tenant_id db) _ h in
      elim (Bool-cases (is_unclaimed row)) [
        | inr f ↦
            subst (λ x. Progress r db x)
              (ap (λ x. x.1) (ok-injective (rw (f, if◌then◌else◌) at h1))) (Progress-same refl refl)
        | inl t ↦
            subst (λ x. Progress r db x)
              (ap (λ x. x.1) (ok-injective (rw (t, if◌then◌else◌) at h1)))
              (fail_job-Progress c failure now row db (lock_job-mem job_id tenant_id db l).0
                (is_unclaimed-true row t).1)
      ]

  -- What one stale row becomes: cancelled, left alone, or failed.
  pub reconcile_row-cases :
      (now : ℕ) (row : JobRow F) (db : Database F) {after : Database F}
      → reconcile_row now row db ≡ ok after
      → (complete_cancellation now row db ≡ ok after)
        ⊎ ((row.control_state ≡ ControlState.cancelled) × (after ≡ db))
        ⊎ ((row.control_state ≡ ControlState.active)
            × (after ≡ fail_job FailureClass.transient lease_expired now row db))
  unfolding reconcile_row
  reconcile_row-cases now row db {after} h = go row.control_state refl h
    where
      go :
          (c : ControlState)
          → row.control_state ≡ c
          → (if c == ControlState.cancel_requested
              then complete_cancellation now row db
              else (if not (c == ControlState.active)
                  then ok db
                  else ok (fail_job FailureClass.transient lease_expired now row db)))
            ≡ ok after
          → (complete_cancellation now row db ≡ ok after)
            ⊎ ((row.control_state ≡ ControlState.cancelled) × (after ≡ db))
            ⊎ ((row.control_state ≡ ControlState.active)
                × (after ≡ fail_job FailureClass.transient lease_expired now row db))
      go ControlState.cancel_requested e h = inl h
      go ControlState.cancelled e h = inr (inl (e, sym (ok-injective h)))
      go ControlState.active e h = inr (inr (e, sym (ok-injective h)))

  pub reconcile_row-Progress :
      {r : Reports}
      → (now : ℕ) (row : JobRow F) (db : Database F) {after : Database F} → Memᴰ row db.jobs
      → reconcile_row now row db ≡ ok after
      → Progress r db after
  reconcile_row-Progress {r} now row db m h = elim (reconcile_row-cases now row db h) [
    | inl e ↦ complete_cancellation-Progress now row db m e
    | inr (inl (c, e)) ↦ subst (λ x. Progress r db x) (sym e) (Progress-same refl refl)
    | inr (inr (a, e)) ↦
        subst (λ x. Progress r db x) (sym e)
          (fail_job-Progress FailureClass.transient lease_expired now row db m a)
  ]

  -- The jobs after one stale row: the same, or with that row written.
  reconcile_row-jobs :
      (now : ℕ) (row : JobRow F) (db : Database F) {after : Database F}
      → reconcile_row now row db ≡ ok after
      → ((row.control_state ≡ ControlState.cancelled) × (after.jobs ≡ db.jobs))
        ⊎ ((new : JobRow F) × (new.id ≡ row.id)
            × (new.status ≡ RunStatus.failed)
            × (after.jobs ≡ put new db.jobs))
  reconcile_row-jobs now row db {after} h = elim (reconcile_row-cases now row db h) [
    | inl e ↦ inr (
      cancelled_row now row,
      (cancelled_row-Evolves {r = Reports.any_attempt} now row).same_id,
      unfold cancelled_row in refl,
      complete_cancellation-jobs now row db e,
    )
    | inr (inl (c, e)) ↦ inl (c, ap (λ (x : Database F). x.jobs) e)
    | inr (inr (a, e)) ↦
        let failed = failed_row FailureClass.transient lease_expired now row in
        inr (
          failed,
          (failed_row-Evolves {r = Reports.any_attempt} FailureClass.transient lease_expired now
              row).same_id,
          unfold failed_row in refl,
          ap (λ (x : Database F). x.jobs) e
              ∙ (fail_aggregate-same failed.kind lease_expired now failed (with_job failed db)).0,
        )
  ]

  -- A job of another key stays as it is.
  reconcile_row-stays :
      (now : ℕ) (row : JobRow F) (db : Database F) {after : Database F} {other : JobRow F}
      → reconcile_row now row db ≡ ok after
      → Memᴰ other db.jobs
      → ¬ (other.id ≡ row.id)
      → Memᴰ other after.jobs
  reconcile_row-stays now row db {other} h m ne = elim (reconcile_row-jobs now row db h) [
    | inl (c, e) ↦ subst (λ x. Memᴰ other x) (sym e) m
    | inr (new, i, s, e) ↦
        subst (λ x. Memᴰ other x) (sym e)
          (elim (mem-put new db.jobs m) [ inl (p, n) ↦ absurd (ne (p ∙ i)) | inr k ↦ k ])
  ]

  head-not_later :
      (row : JobRow F) (rows : List (JobRow F)) {other : JobRow F}
      → Nodup (ids (row ∷ rows))
      → Memᴰ other rows
      → ¬ (other.id ≡ row.id)
  head-not_later row rows once m e =
      (Nodup-cons.0 once).0
        ∣ subst (λ i. Memᴰ i (ids rows)) e (mem-map (λ (x : JobRow F). x.id) rows m) ∣₁

  pub reconcile_rows-Progress :
      {r : Reports}
      → (now : ℕ) (rows : List (JobRow F)) (db : Database F) {after : Database F} → Nodup (ids rows)
      → ((row : JobRow F) → Memᴰ row rows → Memᴰ row db.jobs)
      → reconcile_rows now rows db ≡ ok after
      → Progress r db after
  unfolding reconcile_rows
  reconcile_rows-Progress {r} now [] db once there h =
      subst (λ x. Progress r db x) (ok-injective h) (Progress-same refl refl)
  reconcile_rows-Progress now (row ∷ rows) db once there h =
      let (next, a, h1) = >>=-eq-ok (reconcile_row now row db) _ h in
      Progress-trans (reconcile_row-Progress now row db (there row (Memᴰ.head refl)) a) (
        reconcile_rows-Progress now rows next (Nodup-cons.0 once).1
          (λ other m.
            reconcile_row-stays now row db a (there other (Memᴰ.tail m))
              (head-not_later row rows once m))
          h1)

  -- A row that was already written stays through the rows of other keys.
  reconcile_rows-stays :
      (now : ℕ) (rows : List (JobRow F)) (db : Database F) {after : Database F} {other : JobRow F}
      → reconcile_rows now rows db ≡ ok after
      → Memᴰ other db.jobs
      → ((row : JobRow F) → Memᴰ row rows → ¬ (other.id ≡ row.id))
      → Memᴰ other after.jobs
  unfolding reconcile_rows
  reconcile_rows-stays now [] db {after} {other} h m ne =
      subst (λ (x : Database F). Memᴰ other x.jobs) (ok-injective h) m
  reconcile_rows-stays now (row ∷ rows) db h m ne =
      let (next, a, h1) = >>=-eq-ok (reconcile_row now row db) _ h in
      reconcile_rows-stays now rows next h1
        (reconcile_row-stays now row db a m (ne row (Memᴰ.head refl))) (λ x k. ne x (Memᴰ.tail k))

  -- Every row that is not cancelled is failed by the loop.
  pub reconcile_rows-fails :
      (now : ℕ) (rows : List (JobRow F)) (db : Database F) {after : Database F} {row : JobRow F}
      → Nodup (ids rows)
      → ((x : JobRow F) → Memᴰ x rows → Memᴰ x db.jobs)
      → reconcile_rows now rows db ≡ ok after
      → Memᴰ row rows
      → ¬ (row.control_state ≡ ControlState.cancelled)
      → (new : JobRow F) × Memᴰ new after.jobs × (new.id ≡ row.id) × (new.status ≡ RunStatus.failed)
  unfolding reconcile_rows
  reconcile_rows-fails now [] db once there h m nc = elim m [ ]
  reconcile_rows-fails now (x ∷ rows) db {row} once there h (Memᴰ.tail m) nc =
      let (next, a, h1) = >>=-eq-ok (reconcile_row now x db) _ h in
      reconcile_rows-fails now rows next (Nodup-cons.0 once).1
        (λ other k.
          reconcile_row-stays now x db a (there other (Memᴰ.tail k)) (head-not_later x rows once k))
        h1 m nc
  reconcile_rows-fails now (x ∷ rows) db {row} once there h (Memᴰ.head p) nc =
      let (next, a, h1) = >>=-eq-ok (reconcile_row now x db) _ h in
      elim (reconcile_row-jobs now x db a) [
        | inl (c, e) ↦ absurd (nc (ap (λ (z : JobRow F). z.control_state) p ∙ c))
        | inr (new, i, s, e) ↦
            let m : Memᴰ x db.jobs = there x (Memᴰ.head refl) in
            let key : Memᴰ new.id (ids db.jobs) =
              subst (λ z. Memᴰ z (ids db.jobs)) (sym i)
                (mem-map (λ (z : JobRow F). z.id) db.jobs m) in
            (
              new,
              reconcile_rows-stays now rows next h1
                  (subst (λ z. Memᴰ new z) (sym e) (put-mem_new new db.jobs key))
                  (λ z k q. head-not_later x rows once k (sym q ∙ i)),
              i ∙ ap (λ (z : JobRow F). z.id) (sym p),
              s,
            )
      ]
