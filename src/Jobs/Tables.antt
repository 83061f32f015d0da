-- ===== src/Jobs/Tables.antt =====
-- The tables of jobs, submissions, activities, artifacts, stage runs and control records, and the errors
-- of a transaction. `F` is the type of `progress`, a float that is only copied. A time is a number of
-- microseconds since the epoch. The JSON columns hold the value of the contract that is stored in them.
use pruebas_personalizadas.Prelude.Common.{ℕ, String, Option, List}
use pruebas_personalizadas.Prelude.Eq.{Eq, eq_of}
use pruebas_personalizadas.Prelude.Rows.{Row}
use pruebas_personalizadas.Contracts.Evidence.{Diagnostic}
use pruebas_personalizadas.Jobs.Documents.{AssessmentRow, GuideRow, AuditEventRow}

pub data RepositoryError : Type 0 where
  not_found : String → RepositoryError
  conflict : String → RepositoryError
  value_error : String → RepositoryError
  integrity_error : RepositoryError

pub data RunStatus : Type 0 where
  queued running succeeded failed needs_review : RunStatus

abbrev RunStatus-discrete : Discrete RunStatus
RunStatus-discrete = hlevel

instance abbrev pub run_status_eq : Eq RunStatus
run_status_eq = eq_of RunStatus-discrete

pub data ControlState : Type 0 where
  active cancel_requested cancelled : ControlState

abbrev ControlState-discrete : Discrete ControlState
ControlState-discrete = hlevel

instance abbrev pub control_state_eq : Eq ControlState
control_state_eq = eq_of ControlState-discrete

pub data FailureClass : Type 0 where
  transient permanent security validation precondition provider cancellation : FailureClass

abbrev FailureClass-discrete : Discrete FailureClass
FailureClass-discrete = hlevel

instance abbrev pub failure_class_eq : Eq FailureClass
failure_class_eq = eq_of FailureClass-discrete

pub data JobKind : Type 0 where
  activity submission question_action : JobKind

abbrev JobKind-discrete : Discrete JobKind
JobKind-discrete = hlevel

instance abbrev pub job_kind_eq : Eq JobKind
job_kind_eq = eq_of JobKind-discrete

pub data SubmissionStatus : Type 0 where
  uploaded validating parsing evidence_ready mapping_opportunities planning generating
        validating_questions guide_ready needs_review approved insufficient_relevant_evidence
        insufficient_distinct_question_opportunities evidence_mapping_uncertain
        assessment_plan_infeasible technical_failure rejected_security cancelled :
      SubmissionStatus

abbrev SubmissionStatus-discrete : Discrete SubmissionStatus
SubmissionStatus-discrete = hlevel

instance abbrev pub submission_status_eq : Eq SubmissionStatus
submission_status_eq = eq_of SubmissionStatus-discrete

pub data ControlAction : Type 0 where
  retry cancel resume : ControlAction

abbrev ControlAction-discrete : Discrete ControlAction
ControlAction-discrete = hlevel

instance abbrev pub control_action_eq : Eq ControlAction
control_action_eq = eq_of ControlAction-discrete

pub data ControlStatus : Type 0 where
  requested applied rejected : ControlStatus

abbrev ControlStatus-discrete : Discrete ControlStatus
ControlStatus-discrete = hlevel

instance abbrev pub control_status_eq : Eq ControlStatus
control_status_eq = eq_of ControlStatus-discrete

pub record JobRow (F : Type 0) : Type 0 where
  pub id : String
  pub tenant_id : String
  pub kind : JobKind
  pub aggregate_id : String
  pub stage : String
  pub status : RunStatus
  pub progress : F
  pub attempt : ℕ
  pub diagnostics : List Diagnostic
  pub control_state : ControlState
  pub failure_class : Option FailureClass
  pub max_attempts : ℕ
  pub next_attempt_at : Option ℕ
  pub resume_from_stage : Option String
  pub cancel_requested_at : Option ℕ
  pub cancel_requested_by : Option String
  pub cancelled_at : Option ℕ
  pub created_at : ℕ
  pub started_at : Option ℕ
  pub finished_at : Option ℕ

-- `JobStatus` of the contracts
pub record JobStatus (F : Type 0) : Type 0 where
  pub job_id : String
  pub tenant_id : String
  pub aggregate_id : String
  pub stage : String
  pub status : RunStatus
  pub progress : F
  pub attempt : ℕ
  pub diagnostics : List Diagnostic
  pub started_at : Option ℕ
  pub finished_at : Option ℕ

pub record ProcessingState (F : Type 0) : Type 0 where
  pub submission_id : String
  pub activity_id : String
  pub status : SubmissionStatus
  pub current_stage : Option String
  pub progress : F
  pub active_job_id : Option String
  pub diagnostics : List Diagnostic
  pub updated_at : ℕ

pub record SubmissionRow (F : Type 0) : Type 0 where
  pub id : String
  pub tenant_id : String
  pub activity_id : String
  pub subject_ref : String
  pub blueprint_version : Option ℕ
  pub state : ProcessingState F
  pub active_job_id : Option String
  pub created_at : ℕ
  pub updated_at : ℕ

-- The columns of an activity and of an artifact that the jobs read or write.
pub record ActivityRow : Type 0 where
  pub id : String
  pub tenant_id : String
  pub status : String
  pub updated_at : ℕ

pub record ArtifactRow : Type 0 where
  pub id : String
  pub tenant_id : String
  pub activity_id : String
  pub submission_id : Option String
  pub status : String

-- The columns of a stage run that a retry reads or writes.
pub record StageRunRow : Type 0 where
  pub id : String
  pub job_id : String
  pub tenant_id : String
  pub stage : String
  pub status : RunStatus
  pub attempt : ℕ
  pub failure_class : Option FailureClass
  pub next_attempt_at : Option ℕ
  pub started_at : ℕ

-- `JobControlRecord` of the contracts, which a row of job_control_records repeats.
pub record ControlRecord : Type 0 where
  pub control_id : String
  pub tenant_id : String
  pub job_id : String
  pub aggregate_id : String
  pub action : ControlAction
  pub status : ControlStatus
  pub actor_id : String
  pub source_attempt : ℕ
  pub reason_code : String
  pub target_stage : Option String
  pub failure_class : Option FailureClass
  pub resulting_job_id : Option String
  pub diagnostics : List Diagnostic
  pub requested_at : ℕ
  pub decided_at : Option ℕ

pub record Database (F : Type 0) : Type 0 where
  pub jobs : List (JobRow F)
  pub submissions : List (SubmissionRow F)
  pub activities : List ActivityRow
  pub artifacts : List ArtifactRow
  pub stage_runs : List StageRunRow
  pub controls : List ControlRecord
  pub assessments : List AssessmentRow
  pub guides : List GuideRow
  pub events : List AuditEventRow

module _ {F : Type 0} where
  instance abbrev pub job_row : Row (JobRow F)
  job_row = record { id_of = λ row. row.id; tenant_of = λ row. row.tenant_id }

  instance abbrev pub submission_row : Row (SubmissionRow F)
  submission_row = record { id_of = λ row. row.id; tenant_of = λ row. row.tenant_id }

instance abbrev pub activity_row : Row ActivityRow
activity_row = record { id_of = λ row. row.id; tenant_of = λ row. row.tenant_id }

instance abbrev pub stage_run_row : Row StageRunRow
stage_run_row = record { id_of = λ row. row.id; tenant_of = λ row. row.tenant_id }
