-- ===== src/Jobs/History/Once.antt =====
-- An attempt of a job is continued at most once.
use pruebas_personalizadas.Prelude.Common.{
  ℕ, ◌≡◌, refl, sym, subst, ◌∙◌, String, Option, true, false, Memᴰ, arith,
}
use pruebas_personalizadas.Prelude.Eq.{string_eq, option_eq}
use pruebas_personalizadas.Prelude.Result.{ok, ok-injective}
use pruebas_personalizadas.Jobs.Tables.{
  run_status_eq, control_state_eq, FailureClass, failure_class_eq, JobRow, ControlRecord, Database,
  job_row, submission_row, activity_row,
}
use pruebas_personalizadas.Jobs.Queue.{found}
use pruebas_personalizadas.Jobs.Cancel.{lock_job}
use pruebas_personalizadas.Jobs.Continue.{Continuation, schedule_job_retry, schedule_job_resume}
use pruebas_personalizadas.Jobs.History.Steps.{lock_job-mem}
use pruebas_personalizadas.Prelude.Lists.{any-false, append-mem_right}
use pruebas_personalizadas.Prelude.Eq.{beq_refl}
use pruebas_personalizadas.Jobs.Tables.{ControlAction}
use pruebas_personalizadas.Jobs.Cancel.{is_continuation}
use pruebas_personalizadas.Jobs.Continue.{continues, has_applied_continuation, continuation_record}
use pruebas_personalizadas.Jobs.History.Moves.{
  IsConsistent, Move, History, History-keeps, History-keeps_controls,
}
use pruebas_personalizadas.Jobs.History.Continued.{
  IsContinued, schedule_job_retry-IsContinued, schedule_job_resume-IsContinued,
}
use pruebas_personalizadas.Jobs.History.Change.{Reports}

module _ {F : Type 0} where
  -- The records of a database hold a continuation of the attempt of a job.
  pub record IsSpent (source : JobRow F) (db : Database F) : Type 0 where
    pub control : ControlRecord
    pub there : Memᴰ control db.controls
    pub continuing : continues source control ≡ true

  IsContinued-IsSpent :
      {action : ControlAction} {c : Option FailureClass} {request : Continuation} {now limit : ℕ}
      {source : JobRow F} {db after : Database F}
      → is_continuation action ≡ true
      → IsContinued action c request now limit source db after
      → IsSpent source after
  IsContinued-IsSpent {action} {c} {request} {now} {limit} {source} {db} {after} t k = record {
    control = continuation_record action c request now source;
    there =
        subst (λ x. Memᴰ (continuation_record action c request now source) x) (sym k.controls)
          (append-mem_right db.controls _ (Memᴰ.head refl));
    continuing = rw (beq_refl source.tenant_id, beq_refl source.id, t) (ground arith);
  }

  -- A retry or a resumption of a job succeeds.
  pub data Continued (job_id tenant_id : String) (db after : Database F) : Type 0 where
    by_retry :
        (c : FailureClass) (limit : Option ℕ) (request : Continuation) (now : ℕ)
        → schedule_job_retry job_id tenant_id c limit request now db ≡ ok after
        → Continued job_id tenant_id db after
    by_resume :
        (request : Continuation) (now : ℕ)
        → schedule_job_resume job_id tenant_id request now db ≡ ok after
        → Continued job_id tenant_id db after

  Continued-source :
      (job_id tenant_id : String) {db after : Database F}
      → Continued job_id tenant_id db after
      → (source : JobRow F) × (lock_job job_id tenant_id db ≡ ok source)
        × (has_applied_continuation source db ≡ false)
        × IsSpent source after
  Continued-source job_id tenant_id {db} (Continued.by_retry c limit request now h) =
      let (source, l, _, _, _, k) =
        schedule_job_retry-IsContinued job_id tenant_id c limit request now db h in
      (source, l, k.first, IsContinued-IsSpent refl k)
  Continued-source job_id tenant_id {db} (Continued.by_resume request now h) =
      let (source, l, k) = schedule_job_resume-IsContinued job_id tenant_id request now db h in
      (source, l, k.first, IsContinued-IsSpent refl k)

  Continued-Move :
      {r : Reports}
      → (job_id tenant_id : String) {db after : Database F} → Continued job_id tenant_id db after
      → Move r db after
  Continued-Move job_id tenant_id (Continued.by_retry c limit request now h) =
      Move.retry job_id tenant_id c limit request now h
  Continued-Move job_id tenant_id (Continued.by_resume request now h) =
      Move.resume job_id tenant_id request now h

  not_continued :
      (source : JobRow F) (db : Database F) (control : ControlRecord)
      → has_applied_continuation source db ≡ false
      → Memᴰ control db.controls
      → continues source control ≡ false
  unfolding has_applied_continuation
  not_continued source db control f m = any-false (continues source) db.controls f control m

  -- An attempt of a job is continued at most once: behind a retry or a resumption of a job of a consistent
  -- database, neither succeeds in any later database where the job still stands at the same attempt.
  pub continuation-once :
      {r : Reports}
      → (job_id tenant_id : String) {start between db : Database F} (after : Database F)
        (source later : JobRow F)
      → IsConsistent r start
      → lock_job job_id tenant_id start ≡ ok source
      → Continued job_id tenant_id start between
      → History r between db
      → lock_job job_id tenant_id db ≡ ok later
      → later.attempt ≡ source.attempt
      → ¬ Continued job_id tenant_id db after
  continuation-once {r} job_id tenant_id {start} {between} {db} after source later c l k h n same
        again =
      let (found, l1, _, spent) = Continued-source job_id tenant_id k in
      let (now_found, n1, free, _) = Continued-source job_id tenant_id again in
      let is_source : found ≡ source = ok-injective (sym l1 ∙ l) in
      let is_later : now_found ≡ later = ok-injective (sym n1 ∙ n) in
      let (_, i, t) = lock_job-mem job_id tenant_id start l in
      let (_, j, u) = lock_job-mem job_id tenant_id db n in
      let consistent =
        History-keeps c (History.next History.here (Continued-Move job_id tenant_id k)) in
      let there = History-keeps_controls consistent h spent.control spent.there in
      let unused : continues later spent.control ≡ false =
        subst (λ x. continues x spent.control ≡ false) is_later
          (not_continued now_found db spent.control free there) in
      let used : continues source spent.control ≡ true =
        subst (λ x. continues x spent.control ≡ true) is_source spent.continuing in
      cc (rw (j ∙ sym i, u ∙ sym t, same, used) at unused)
