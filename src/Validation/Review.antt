-- ===== src/Validation/Review.antt =====
-- `validate_review_result` and `validate_evaluation_guide` of
-- comprehension_verification/validation.py.
pub mod Gates
use pruebas_personalizadas.Prelude.Common.{
  ℕ, zero, suc, String, List, [], ◌∷◌, map, Bool, true, false, not, ◌||◌, ◌&&◌,
}
use pruebas_personalizadas.Prelude.Tests.{is_some}
use pruebas_personalizadas.Prelude.Eq.{◌==◌, nat_eq, string_eq, list_eq}
use pruebas_personalizadas.Prelude.Result.{ok, reject, each, ◌>>=◌, ◌>>◌}
use pruebas_personalizadas.Prelude.Lists.{any}
use pruebas_personalizadas.Prelude.Sets.{subset, same_set, get}
use pruebas_personalizadas.Prelude.Floats.{Floats}
use pruebas_personalizadas.Contracts.Enums.{ReviewDecision, review_decision_eq, difficulty_band_eq}
use pruebas_personalizadas.Contracts.Evidence.{EvidenceBundle}
use pruebas_personalizadas.Contracts.Blueprint.{QuestionValidationPolicy}
use pruebas_personalizadas.Contracts.Questions.{
  ObservableElement, GuideLevel, EvaluationGuideItem, GuideStatus, guide_text, EvaluationGuide,
  SelectedQuestion, Assessment, QuestionCandidate, QuestionGenerationResult, QuestionSemanticReview,
  ReviewStatus, review_text, QuestionReviewResult,
}
use pruebas_personalizadas.Validation.Error
use pruebas_personalizadas.Validation.Error.{Checked, or_raise}
use pruebas_personalizadas.Validation.Context.{non_empty, validate_complete_diagnostics}

module _ {F : Type 0} (fl : Floats F) where
  unfoldable pub below_threshold : QuestionSemanticReview F → QuestionValidationPolicy F → Bool
  below_threshold semantic policy =
      fl.lt semantic.scores.groundedness policy.minimum_groundedness
      || fl.lt semantic.scores.anchor_sufficiency policy.minimum_anchor_sufficiency
      || fl.lt semantic.scores.criterion_relevance policy.minimum_criterion_relevance
      || fl.lt semantic.scores.answerability policy.minimum_answerability
      || fl.lt semantic.confidence policy.escalate_below_confidence

  -- The checks of a review that is complete.
  unfoldable pub check_review :
      QuestionReviewResult F
      → QuestionGenerationResult F
      → QuestionSemanticReview F
      → QuestionCandidate F
      → QuestionValidationPolicy F
      → Checked (Unit {0})
  check_review result generation review candidate policy = do
    reject (not (review.candidate_id == candidate.candidate_id)) Error.invented_id
    reject
        (not (result.submission_id == generation.submission_id)
          || not (result.opportunity_id == generation.opportunity_id))
        Error.invented_id
    reject (not (subset review.evidence_ids candidate.evidence_ids)) Error.unauthorized_evidence
    reject (not (subset review.source_ids candidate.course_source_ids)) Error.unauthorized_source
    reject
        (not (review.estimated_difficulty == candidate.difficulty)
          || not (review.estimated_minutes == candidate.estimated_minutes))
        Error.blueprint_reference_mismatch
    reject
        (review.decision == ReviewDecision.accept
          && (below_threshold review policy || non_empty review.critical_failure_codes))
        Error.question_policy_violation

  unfoldable pub review_by_status :
      ReviewStatus → Checked (Unit {0}) → Checked (Unit {0}) → Checked (Unit {0})
  review_by_status ReviewStatus.ready ready failed = ready
  review_by_status _ ready failed = failed

  unfoldable pub validate_review_result :
      QuestionReviewResult F
      → QuestionGenerationResult F
      → QuestionValidationPolicy F
      → Checked (Unit {0})
  unfolding review_by_status
  validate_review_result result generation policy =
      review_by_status result.status
        (do
          review ← or_raise result.review Error.model_output_invalid
          candidate ← or_raise generation.candidate Error.model_output_invalid
          check_review result generation review candidate policy)
        (do
          reject (is_some result.review) Error.partial_assessment_forbidden
          validate_complete_diagnostics result.diagnostics (review_text result.status) false)

abbrev required_levels : List ℕ
required_levels = 0 ∷ 1 ∷ 2 ∷ 3 ∷ []

unfoldable pub check_level : List String → GuideLevel → Checked (Unit {0})
check_level observable_ids level =
    reject (not (subset level.observable_element_ids observable_ids)) Error.invented_id

unfoldable pub check_guide_element : SelectedQuestion → ObservableElement → Checked (Unit {0})
check_guide_element question element = do
  reject (not (subset element.evidence_ids question.evidence_ids)) Error.unauthorized_evidence
  reject (not (subset element.source_ids question.course_source_ids)) Error.unauthorized_source

-- The loop over the items of the guide.
unfoldable pub check_item : Assessment → EvaluationGuideItem → Checked (Unit {0})
unfolding check_level check_guide_element
check_item assessment item = do
  question ←
      or_raise (get (λ q. q.question_id) item.question_id assessment.questions) Error.key_error
  reject (not (map (λ level. level.level) item.guide.levels == required_levels))
      Error.guide_incomplete
  each (check_level (map (λ element. element.element_id) item.guide.observable_elements))
      item.guide.levels
  each (check_guide_element question) item.guide.observable_elements

unfoldable pub guide_by_status :
    GuideStatus → Checked (Unit {0}) → Checked (Unit {0}) → Checked (Unit {0})
guide_by_status GuideStatus.ready ready failed = ready
guide_by_status _ ready failed = failed

unfoldable pub validate_evaluation_guide :
    {F : Type 0} → EvaluationGuide → Assessment → EvidenceBundle F → Checked (Unit {0})
unfolding guide_by_status
validate_evaluation_guide guide assessment bundle = do
  reject (not (guide.assessment_id == assessment.assessment_id)) Error.invented_id
  reject
      (not (guide.submission_id == assessment.submission_id)
        || not (guide.submission_id == bundle.submission_id))
      Error.cross_submission_evidence
  guide_by_status guide.status
      (do
        reject
            (not (
              same_set (map (λ item. item.question_id) guide.items)
                (map (λ item. item.question_id) assessment.questions)))
            Error.guide_incomplete
        each (check_item assessment) guide.items)
      (do
        reject (non_empty guide.items) Error.partial_assessment_forbidden
        validate_complete_diagnostics guide.diagnostics (guide_text guide.status) false)
