-- ===== src/Jobs/Documents.antt =====
-- The rows of assessments, guides and audit events. Of the stored contracts only the fields that the
-- repository reads are kept.
use pruebas_personalizadas.Prelude.Common.{ℕ, String, Option, List}
use pruebas_personalizadas.Prelude.Eq.{Eq, eq_of}
use pruebas_personalizadas.Prelude.Rows.{Row}
use pruebas_personalizadas.Contracts.Evidence.{Detail}

pub data WorkflowStatus : Type 0 where
  draft blocked ready needs_review approved published insufficient_relevant_evidence
        insufficient_distinct_question_opportunities evidence_mapping_uncertain
        assessment_plan_infeasible technical_failure rejected_security :
      WorkflowStatus

abbrev WorkflowStatus-discrete : Discrete WorkflowStatus
WorkflowStatus-discrete = hlevel

instance abbrev pub workflow_status_eq : Eq WorkflowStatus
workflow_status_eq = eq_of WorkflowStatus-discrete

pub record StoredAssessment : Type 0 where
  pub assessment_id : String
  pub submission_id : String
  pub status : WorkflowStatus
  pub approved_by : Option String
  pub approved_at : Option ℕ

pub record AssessmentRow : Type 0 where
  pub row_id : String
  pub assessment_id : String
  pub tenant_id : String
  pub submission_id : String
  pub version : ℕ
  pub etag : String
  pub stored : StoredAssessment
  pub created_at : ℕ

pub record StoredGuide : Type 0 where
  pub assessment_id : String
  pub status : WorkflowStatus

pub record GuideRow : Type 0 where
  pub guide_id : String
  pub assessment_id : String
  pub tenant_id : String
  pub submission_id : String
  pub stored : StoredGuide

pub record AuditEventRow : Type 0 where
  pub id : String
  pub tenant_id : String
  pub event_type : String
  pub aggregate_id : String
  pub actor_id : String
  pub payload : List (String × Detail)
  pub occurred_at : ℕ

instance abbrev pub assessment_row : Row AssessmentRow
assessment_row = record { id_of = λ row. row.row_id; tenant_of = λ row. row.tenant_id }

instance abbrev pub guide_row : Row GuideRow
guide_row = record { id_of = λ row. row.guide_id; tenant_of = λ row. row.tenant_id }

instance abbrev pub audit_event_row : Row AuditEventRow
audit_event_row = record { id_of = λ row. row.id; tenant_of = λ row. row.tenant_id }
