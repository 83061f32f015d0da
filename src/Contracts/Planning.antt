-- ===== src/Contracts/Planning.antt =====
-- The evidence map and the assessment plan of specification/models_v1.1(1).py. A status is one of the
-- literals of its field, and `text` spells it.
use pruebas_personalizadas.Prelude.Common.{ℕ, String, List, Bool}
use pruebas_personalizadas.Contracts.Enums.{
  CognitiveOperation, AnchorStructure, ResponseFormat, DifficultyBand,
}
use pruebas_personalizadas.Contracts.Evidence.{Diagnostic}

pub record EvidenceAlignment (F : Type 0) : Type 0 where
  pub dimension_id : String
  pub variant_ids : List String
  pub criterion_ids : List String
  pub strength : F
  pub justification : String

pub record EvidenceClaim (F : Type 0) : Type 0 where
  pub claim_id : String
  pub text : String
  pub evidence_ids : List String
  pub alignments : List (EvidenceAlignment F)
  pub supported_operations : List CognitiveOperation

pub record EvidenceVariantMatch (F : Type 0) : Type 0 where
  pub dimension_id : String
  pub variant_id : String
  pub evidence_ids : List String
  pub evidence_fit : F
  pub mapping_confidence : F
  pub justification : String

pub record QuestionOpportunity (F : Type 0) : Type 0 where
  pub opportunity_id : String
  pub opportunity_template_id : String
  pub submission_id : String
  pub dimension_id : String
  pub variant_id : String
  pub evidence_ids : List String
  pub cognitive_operation : CognitiveOperation
  pub focus : String
  pub observable : String
  pub difficulty : DifficultyBand
  pub target_minutes : ℕ
  pub allowed_anchor_structures : List AnchorStructure
  pub allowed_response_formats : List ResponseFormat
  pub activity_priority : F
  pub evidence_fit : F
  pub opportunity_quality : F
  pub student_justification_required : Bool

pub data MappingStatus : Type 0 where
  ready insufficient_relevant_evidence insufficient_distinct_question_opportunities : MappingStatus
  evidence_mapping_uncertain technical_failure : MappingStatus

pub record EvidenceMapPatch (F : Type 0) : Type 0 where
  pub submission_id : String
  pub status : MappingStatus
  pub claims : List (EvidenceClaim F)
  pub variant_matches : List (EvidenceVariantMatch F)
  pub opportunities : List (QuestionOpportunity F)
  pub diagnostics : List Diagnostic

pub data PlanStatus : Type 0 where
  ready insufficient_relevant_evidence insufficient_distinct_question_opportunities : PlanStatus
  evidence_mapping_uncertain assessment_plan_infeasible : PlanStatus

pub record AssessmentPlan : Type 0 where
  pub plan_id : String
  pub submission_id : String
  pub blueprint_id : String
  pub blueprint_version : ℕ
  pub status : PlanStatus
  pub question_count : ℕ
  pub selected_opportunity_ids : List String
  pub reserve_opportunity_ids : List String
  pub estimated_total_minutes : ℕ
  pub diagnostics : List Diagnostic

abbrev pub mapping_text : MappingStatus → String
mapping_text MappingStatus.ready = "READY"
mapping_text MappingStatus.insufficient_relevant_evidence = "INSUFFICIENT_RELEVANT_EVIDENCE"
mapping_text MappingStatus.insufficient_distinct_question_opportunities =
    "INSUFFICIENT_DISTINCT_QUESTION_OPPORTUNITIES"
mapping_text MappingStatus.evidence_mapping_uncertain = "EVIDENCE_MAPPING_UNCERTAIN"
mapping_text MappingStatus.technical_failure = "TECHNICAL_FAILURE"

abbrev pub plan_text : PlanStatus → String
plan_text PlanStatus.ready = "READY"
plan_text PlanStatus.insufficient_relevant_evidence = "INSUFFICIENT_RELEVANT_EVIDENCE"
plan_text PlanStatus.insufficient_distinct_question_opportunities =
    "INSUFFICIENT_DISTINCT_QUESTION_OPPORTUNITIES"
plan_text PlanStatus.evidence_mapping_uncertain = "EVIDENCE_MAPPING_UNCERTAIN"
plan_text PlanStatus.assessment_plan_infeasible = "ASSESSMENT_PLAN_INFEASIBLE"
