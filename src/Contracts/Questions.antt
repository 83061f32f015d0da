-- ===== src/Contracts/Questions.antt =====
-- Question candidates, reviews and guides of specification/models_v1.1(1).py. The schema versions and
-- the options of a choice question, which no validator of this development reads, are left out.
use pruebas_personalizadas.Prelude.Common.{ℕ, String, Option, List, Bool}
use pruebas_personalizadas.Contracts.Enums.{
  CognitiveOperation, AnchorStructure, ResponseFormat, DifficultyBand, ReviewDecision,
}
use pruebas_personalizadas.Contracts.Locators.{SourceLocator}
use pruebas_personalizadas.Contracts.Evidence.{Diagnostic, SourceCitation}

pub data Transformation : Type 0 where
  literal crop table_slice code_context alt_text : Transformation

pub record AnchorFragment (F : Type 0) : Type 0 where
  pub evidence_id : String
  pub display_text : Option String
  pub transformation : Transformation
  pub locator : SourceLocator F

pub record Anchor (F : Type 0) : Type 0 where
  pub anchor_id : String
  pub structure : AnchorStructure
  pub fragments : List (AnchorFragment F)
  pub student_facing_label : Option String

pub record ObservableElement : Type 0 where
  pub element_id : String
  pub description : String
  pub evidence_ids : List String
  pub source_ids : List String
  pub required_for_level_2 : Bool

pub record GuideLevel : Type 0 where
  pub level : ℕ
  pub label : String
  pub descriptor : String
  pub observable_element_ids : List String

pub record GuideDraft : Type 0 where
  pub purpose : String
  pub observable_elements : List ObservableElement
  pub acceptable_alternatives : List String
  pub misconceptions : List String
  pub levels : List GuideLevel
  pub cannot_infer : List String

pub record EvaluationGuideItem : Type 0 where
  pub question_id : String
  pub guide : GuideDraft

pub data GuideStatus : Type 0 where
  ready needs_review technical_failure : GuideStatus

pub record EvaluationGuide : Type 0 where
  pub guide_id : String
  pub assessment_id : String
  pub submission_id : String
  pub status : GuideStatus
  pub items : List EvaluationGuideItem
  pub diagnostics : List Diagnostic

pub record QuestionCandidate (F : Type 0) : Type 0 where
  pub candidate_id : String
  pub submission_id : String
  pub opportunity_id : String
  pub opportunity_template_id : String
  pub dimension_id : String
  pub variant_id : String
  pub cognitive_operation : CognitiveOperation
  pub response_format : ResponseFormat
  pub difficulty : DifficultyBand
  pub estimated_minutes : ℕ
  pub question_text : String
  pub anchor : Anchor F
  pub evidence_ids : List String
  pub course_source_ids : List String
  pub citations : List (SourceCitation F)
  pub student_justification_required : Bool
  pub preliminary_guide : GuideDraft
  pub uncertainties : List String

pub data GenerationStatus : Type 0 where
  ready replacement_required technical_failure : GenerationStatus

pub record QuestionGenerationResult (F : Type 0) : Type 0 where
  pub submission_id : String
  pub opportunity_id : String
  pub status : GenerationStatus
  pub candidate : Option (QuestionCandidate F)
  pub diagnostics : List Diagnostic

pub record QuestionScores (F : Type 0) : Type 0 where
  pub groundedness : F
  pub anchor_sufficiency : F
  pub criterion_relevance : F
  pub answerability : F
  pub cognitive_demand : F
  pub submission_specificity : F
  pub clarity : F
  pub accessibility : F
  pub discriminative_potential : F
  pub guide_observability : F

pub record QuestionSemanticReview (F : Type 0) : Type 0 where
  pub candidate_id : String
  pub decision : ReviewDecision
  pub critical_failure_codes : List String
  pub scores : QuestionScores F
  pub estimated_difficulty : DifficultyBand
  pub estimated_minutes : ℕ
  pub confidence : F
  pub justifications : List String
  pub evidence_ids : List String
  pub source_ids : List String
  pub diagnostics : List Diagnostic

pub data ReviewStatus : Type 0 where
  ready needs_review technical_failure : ReviewStatus

pub record QuestionReviewResult (F : Type 0) : Type 0 where
  pub submission_id : String
  pub opportunity_id : String
  pub status : ReviewStatus
  pub review : Option (QuestionSemanticReview F)
  pub diagnostics : List Diagnostic

-- Of a selected question and an assessment, what the guide's validation reads.
pub record SelectedQuestion : Type 0 where
  pub question_id : String
  pub evidence_ids : List String
  pub course_source_ids : List String

pub record Assessment : Type 0 where
  pub assessment_id : String
  pub submission_id : String
  pub questions : List SelectedQuestion

abbrev pub generation_text : GenerationStatus → String
generation_text GenerationStatus.ready = "READY"
generation_text GenerationStatus.replacement_required = "REPLACEMENT_REQUIRED"
generation_text GenerationStatus.technical_failure = "TECHNICAL_FAILURE"

abbrev pub review_text : ReviewStatus → String
review_text ReviewStatus.ready = "READY"
review_text ReviewStatus.needs_review = "NEEDS_REVIEW"
review_text ReviewStatus.technical_failure = "TECHNICAL_FAILURE"

abbrev pub guide_text : GuideStatus → String
guide_text GuideStatus.ready = "READY"
guide_text GuideStatus.needs_review = "NEEDS_REVIEW"
guide_text GuideStatus.technical_failure = "TECHNICAL_FAILURE"
