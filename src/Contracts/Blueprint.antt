-- ===== src/Contracts/Blueprint.antt =====
-- The blueprint catalogue and the policies of specification/models_v1.1(1).py.
use pruebas_personalizadas.Prelude.Common.{ℕ, String, Option, List, Bool}
use pruebas_personalizadas.Contracts.Enums.{
  EvidenceModality, CognitiveOperation, AnchorStructure, ResponseFormat, DifficultyBand,
  StructuredJustificationMode,
}

pub record StructuredJustificationPolicy : Type 0 where
  pub mode : StructuredJustificationMode
  pub selected_opportunity_template_ids : List String

pub record AssessmentPlanningPolicy (F : Type 0) : Type 0 where
  pub policy_id : String
  pub minimum_opportunity_quality : F
  pub minimum_evidence_fit : F
  pub activity_priority_weight : F
  pub evidence_fit_weight : F
  pub opportunity_quality_weight : F
  pub repeated_dimension_penalty : F
  pub repeated_variant_penalty : F
  pub evidence_overlap_penalty : F
  pub maximum_evidence_overlap : F
  pub max_reserve_opportunities : ℕ

pub record QuestionValidationPolicy (F : Type 0) : Type 0 where
  pub policy_id : String
  pub minimum_groundedness : F
  pub minimum_anchor_sufficiency : F
  pub minimum_answerability : F
  pub minimum_criterion_relevance : F
  pub escalate_below_confidence : F
  pub critical_failure_codes : List String

pub record EvidenceRequirement (F : Type 0) : Type 0 where
  pub allowed_modalities : List EvidenceModality
  pub min_distinct_units : ℕ
  pub min_extraction_confidence : F
  pub min_alignment : F
  pub cross_artifact_required : Bool
  pub course_sources_allowed : Bool

pub record SupportedOperation (F : Type 0) : Type 0 where
  pub cognitive_operation : CognitiveOperation
  pub support_strength : F
  pub rationale : String

pub record QuestionOpportunityTemplate (F : Type 0) : Type 0 where
  pub opportunity_template_id : String
  pub cognitive_operation : CognitiveOperation
  pub focus : String
  pub observable : String
  pub difficulty : DifficultyBand
  pub target_minutes : ℕ
  pub allowed_anchor_structures : List AnchorStructure
  pub allowed_response_formats : List ResponseFormat
  pub verification_potential : F
  pub minimum_quality : F
  pub student_justification_required : Bool

pub record EvidenceVariant (F : Type 0) : Type 0 where
  pub variant_id : String
  pub name : String
  pub description : String
  pub evidence_requirement : EvidenceRequirement F
  pub verification_potential : F
  pub supported_operations : List (SupportedOperation F)
  pub question_opportunities : List (QuestionOpportunityTemplate F)

pub record BlueprintDimension (F : Type 0) : Type 0 where
  pub dimension_id : String
  pub name : String
  pub criterion_ids : List String
  pub learning_outcome_ids : List String
  pub grading_weight : Option F
  pub verification_priority : F
  pub evidence_variants : List (EvidenceVariant F)

pub record AssessmentConstraints (F : Type 0) : Type 0 where
  pub question_count : ℕ
  pub target_total_minutes : ℕ
  pub allowed_response_formats : List ResponseFormat
  pub minimum_opportunity_quality : F
  pub max_reserve_opportunities : ℕ
  pub structured_justification_policy : StructuredJustificationPolicy

pub record AssessmentBlueprint (F : Type 0) : Type 0 where
  pub blueprint_id : String
  pub blueprint_version : ℕ
  pub activity_id : String
  pub dimensions : List (BlueprintDimension F)
  pub assessment_constraints : AssessmentConstraints F
