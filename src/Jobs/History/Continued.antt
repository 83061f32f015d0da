-- ===== src/Jobs/History/Continued.antt =====
-- What a retry and a resumption do when they succeed.
use pruebas_personalizadas.Prelude.Common.{
  ℕ, ◌<◌, ◌≡◌, refl, sym, ap, ◌∙◌, String, Option, none, some, [], ◌∷◌, ◌++◌, true, false,
}
use pruebas_personalizadas.Prelude.Tests.{not-false, leb→lt}
use pruebas_personalizadas.Prelude.Eq.{string_eq, option_eq, eq_of_not-ne}
use pruebas_personalizadas.Prelude.Result.{ok, >>=-eq-ok, >>-eq-ok, reject->>-eq-ok, ok-injective}
use pruebas_personalizadas.Jobs.Tables.{
  RunStatus, run_status_eq, ControlState, control_state_eq, FailureClass, failure_class_eq, JobRow,
  ControlRecord, Database, job_row, submission_row, activity_row,
}
use pruebas_personalizadas.Jobs.Queue.{add_job}
use pruebas_personalizadas.Jobs.Cancel.{create_control, add_job_control_record, lock_job}
use pruebas_personalizadas.Jobs.Continue.{
  Continuation, check_retry, check_resume, resulting_row, effective_max,
  activate_resulting_submission_job, retry_source, resume_source, schedule_job_retry,
  schedule_job_resume,
}
use pruebas_personalizadas.Jobs.Tables.{ControlAction, ControlStatus}
use pruebas_personalizadas.Jobs.Cancel.{is_retryable_class}
use pruebas_personalizadas.Jobs.Continue.{has_applied_continuation, continuation_record}
use pruebas_personalizadas.Jobs.History.Cancellations.{create_control-eq-ok}
use pruebas_personalizadas.Jobs.History.Continuations.{
  as_conflict-eq-ok, activate_resulting_submission_job-same, mark_failed_stage-same,
}

module _ {F : Type 0} where
  -- The job of a continuation: queued at the asked stage and time, with the attempts of its source used.
  pub record IsResult (request : Continuation) (now limit : ℕ) (source result : JobRow F)
      : Type 0 where
    pub own_id : result.id ≡ request.resulting_job_id
    pub same_tenant : result.tenant_id ≡ source.tenant_id
    pub same_kind : result.kind ≡ source.kind
    pub same_aggregate : result.aggregate_id ≡ source.aggregate_id
    pub queued : result.status ≡ RunStatus.queued
    pub active : result.control_state ≡ ControlState.active
    pub carried : result.attempt ≡ source.attempt
    pub limited : result.max_attempts ≡ limit
    pub at_stage : result.stage ≡ request.resume_from_stage
    pub from_stage : result.resume_from_stage ≡ some request.resume_from_stage
    pub waits : result.next_attempt_at ≡ request.next_attempt_at
    pub same_progress : result.progress ≡ source.progress
    pub no_failure : (result.failure_class ≡ none) × (result.diagnostics ≡ [])
    pub not_started : (result.started_at ≡ none) × (result.finished_at ≡ none)
    pub made : result.created_at ≡ now

  resulting_row-IsResult :
      (request : Continuation) (now limit : ℕ) (source : JobRow F)
      → IsResult request now limit source (resulting_row now request limit source)
  unfolding resulting_row
  resulting_row-IsResult request now limit source = record {
    own_id = refl;
    same_tenant = refl;
    same_kind = refl;
    same_aggregate = refl;
    queued = refl;
    active = refl;
    carried = refl;
    limited = refl;
    at_stage = refl;
    from_stage = refl;
    waits = refl;
    same_progress = refl;
    no_failure = (refl, refl);
    not_started = (refl, refl);
    made = refl;
  }

  -- The record of a continuation: applied, of the attempt of its source, and naming its result.
  pub record IsRecord (action : ControlAction) (c : Option FailureClass) (request : Continuation)
      (source : JobRow F) (control : ControlRecord) : Type 0 where
    pub named : control.control_id ≡ request.control_id
    pub of_tenant : control.tenant_id ≡ source.tenant_id
    pub of_job : control.job_id ≡ source.id
    pub of_aggregate : control.aggregate_id ≡ source.aggregate_id
    pub of_attempt : control.source_attempt ≡ source.attempt
    pub of_action : control.action ≡ action
    pub of_class : control.failure_class ≡ c
    pub applied : control.status ≡ ControlStatus.applied
    pub by_actor : control.actor_id ≡ request.actor_id
    pub reason : control.reason_code ≡ request.reason_code
    pub to_stage : control.target_stage ≡ some request.resume_from_stage
    pub to_job : control.resulting_job_id ≡ some request.resulting_job_id

  continuation_record-IsRecord :
      (action : ControlAction) (c : Option FailureClass) (request : Continuation) (now : ℕ)
      (source : JobRow F)
      → IsRecord action c request source (continuation_record action c request now source)
  continuation_record-IsRecord action c request now source = record {
    named = refl;
    of_tenant = refl;
    of_job = refl;
    of_aggregate = refl;
    of_attempt = refl;
    of_action = refl;
    of_class = refl;
    applied = refl;
    by_actor = refl;
    reason = refl;
    to_stage = refl;
    to_job = refl;
  }

  -- The new job and the new record of a continuation, behind those that were there.
  pub record IsContinued (action : ControlAction) (c : Option FailureClass) (request : Continuation)
      (now limit : ℕ) (source : JobRow F) (db after : Database F) : Type 0 where
    pub active : source.control_state ≡ ControlState.active
    pub room : source.attempt < limit
    pub first : has_applied_continuation source db ≡ false
    pub jobs : after.jobs ≡ db.jobs ++ resulting_row now request limit source ∷ []
    pub controls :
        after.controls ≡ db.controls ++ continuation_record action c request now source ∷ []
    pub result : IsResult request now limit source (resulting_row now request limit source)
    pub recorded :
        IsRecord action c request source (continuation_record action c request now source)

  add_job-jobs :
      (row : JobRow F) (db : Database F) {after : Database F}
      → add_job row db ≡ ok after
      → (after.jobs ≡ db.jobs ++ row ∷ []) × (after.controls ≡ db.controls)
  unfolding add_job
  add_job-jobs row db h =
      let e = sym (ok-injective (reject->>-eq-ok _ _ _ h).1) in
      (ap (λ (x : Database F). x.jobs) e, ap (λ (x : Database F). x.controls) e)

  add_control-tables :
      (control : ControlRecord) (db : Database F) {made : ControlRecord} {after : Database F}
      → create_control control ≡ ok made
      → add_job_control_record made db ≡ ok after
      → (after.jobs ≡ db.jobs) × (after.controls ≡ db.controls ++ control ∷ [])
  unfolding add_job_control_record
  add_control-tables control db c h =
      let own = ok-injective (sym c ∙ create_control-eq-ok control c) in
      let e = sym (ok-injective (reject->>-eq-ok _ _ _ h).1) in
      (
        ap (λ (x : Database F). x.jobs) e,
        ap (λ (x : Database F). x.controls) e ∙ ap (λ x. db.controls ++ x ∷ []) own,
      )

  retry_source-IsContinued :
      (c : FailureClass) (limit : Option ℕ) (request : Continuation) (now : ℕ) (source : JobRow F)
      (db : Database F) {after : Database F}
      → retry_source c limit request now source db ≡ ok after
      → (source.status ≡ RunStatus.failed)
        × (source.failure_class ≡ some c)
        × IsContinued ControlAction.retry
            (some c)
            request
            now
            (effective_max limit source)
            source
            db
            after
  unfolding retry_source check_retry
  retry_source-IsContinued c limit request now source db h =
      let ((_, g), h1) = >>-eq-ok _ _ h in
      let (active, g1) = reject->>-eq-ok _ _ _ g in
      let (failed, g2) = reject->>-eq-ok _ _ _ g1 in
      let (class, g3) = reject->>-eq-ok _ _ _ g2 in
      let (room, g4) = reject->>-eq-ok _ _ _ g3 in
      let (once, _) = reject->>-eq-ok _ _ _ g4 in
      let result = resulting_row now request (effective_max limit source) source in
      let (added, a, h2) = >>=-eq-ok (add_job result db) _ h1 in
      let (activated, b, h3) =
        >>=-eq-ok (activate_resulting_submission_job source result now added) _ h2 in
      let (control, made, h4) = >>=-eq-ok _ _ h3 in
      let (j1, k1) = add_job-jobs result db a in
      let (j2, k2) = activate_resulting_submission_job-same source result now added b in
      let (j3, k3) = mark_failed_stage-same c request source activated in
      let (j4, k4) = add_control-tables _ _ made h4 in
      (
        eq_of_not-ne source.status RunStatus.failed failed,
        eq_of_not-ne source.failure_class (some c) class,
        record {
          active = eq_of_not-ne source.control_state ControlState.active active;
          room = leb→lt _ _ room;
          first = once;
          jobs = j4 ∙ j3 ∙ j2 ∙ j1;
          controls =
              k4
              ∙ ap
                  (λ x.
                    x ++ continuation_record ControlAction.retry (some c) request now source ∷ [])
                  (k3 ∙ k2 ∙ k1);
          result = resulting_row-IsResult request now (effective_max limit source) source;
          recorded = continuation_record-IsRecord ControlAction.retry (some c) request now source;
        },
      )

  resume_source-IsContinued :
      (request : Continuation) (now : ℕ) (source : JobRow F) (db : Database F) {after : Database F}
      → resume_source request now source db ≡ ok after
      → IsContinued ControlAction.resume none request now source.max_attempts source db after
  unfolding resume_source check_resume
  resume_source-IsContinued request now source db h =
      let ((_, g), h1) = >>-eq-ok _ _ h in
      let (active, g1) = reject->>-eq-ok _ _ _ g in
      let (_, g2) = reject->>-eq-ok _ _ _ g1 in
      let (_, g3) = reject->>-eq-ok _ _ _ g2 in
      let (room, g4) = reject->>-eq-ok _ _ _ g3 in
      let (once, _) = reject->>-eq-ok _ _ _ g4 in
      let result = resulting_row now request source.max_attempts source in
      let (added, a, h2) = >>=-eq-ok (add_job result db) _ h1 in
      let (activated, b, h3) =
        >>=-eq-ok (activate_resulting_submission_job source result now added) _ h2 in
      let (control, made, h4) = >>=-eq-ok _ _ h3 in
      let (j1, k1) = add_job-jobs result db a in
      let (j2, k2) = activate_resulting_submission_job-same source result now added b in
      let (j4, k4) = add_control-tables _ _ made h4 in
      record {
        active = eq_of_not-ne source.control_state ControlState.active active;
        room = leb→lt _ _ room;
        first = once;
        jobs = j4 ∙ j2 ∙ j1;
        controls =
            k4
            ∙ ap (λ x. x ++ continuation_record ControlAction.resume none request now source ∷ [])
                (k2 ∙ k1);
        result = resulting_row-IsResult request now source.max_attempts source;
        recorded = continuation_record-IsRecord ControlAction.resume none request now source;
      }

  -- A retry that succeeds found an active failed job of the given class, with attempts left under the
  -- limit that it asks for, or else that of the job, and not continued before. It adds one job, queued at
  -- the asked stage and time for the same aggregate, with the attempts that its source has used and that
  -- limit, and one applied record of the retry, of the job and the attempt of the source, that names the
  -- new job; and it changes no other job.
  pub schedule_job_retry-IsContinued :
      (job_id tenant_id : String) (c : FailureClass) (limit : Option ℕ) (request : Continuation)
      (now : ℕ) (db : Database F) {after : Database F}
      → schedule_job_retry job_id tenant_id c limit request now db ≡ ok after
      → (source : JobRow F) × (lock_job job_id tenant_id db ≡ ok source)
        × (is_retryable_class (some c) ≡ true)
        × (source.status ≡ RunStatus.failed)
        × (source.failure_class ≡ some c)
        × IsContinued ControlAction.retry
            (some c)
            request
            now
            (effective_max limit source)
            source
            db
            after
  unfolding schedule_job_retry
  schedule_job_retry-IsContinued job_id tenant_id c limit request now db h =
      let (retryable, h1) = reject->>-eq-ok _ _ _ h in
      let (_, h2) = reject->>-eq-ok _ _ _ h1 in
      let (_, h3) = reject->>-eq-ok _ _ _ h2 in
      let (source, l, h4) = >>=-eq-ok (lock_job job_id tenant_id db) _ (as_conflict-eq-ok _ _ h3) in
      let (failed, class, k) = retry_source-IsContinued c limit request now source db h4 in
      (source, l, not-false retryable, failed, class, k)

  pub schedule_job_resume-IsContinued :
      (job_id tenant_id : String) (request : Continuation) (now : ℕ) (db : Database F)
      {after : Database F}
      → schedule_job_resume job_id tenant_id request now db ≡ ok after
      → (source : JobRow F) × (lock_job job_id tenant_id db ≡ ok source)
        × IsContinued ControlAction.resume none request now source.max_attempts source db after
  unfolding schedule_job_resume
  schedule_job_resume-IsContinued job_id tenant_id request now db h =
      let (_, h1) = reject->>-eq-ok _ _ _ h in
      let (source, l, h2) = >>=-eq-ok (lock_job job_id tenant_id db) _ (as_conflict-eq-ok _ _ h1) in
      (source, l, resume_source-IsContinued request now source db h2)
