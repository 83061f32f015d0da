-- ===== src/Tests/Questions.antt =====
-- A candidate, a review and a guide of the small activity.
use pruebas_personalizadas.Prelude.Common.{
  ℕ, String, ◌≡◌, refl, some, none, [], ◌∷◌, Bool, false, map, Memᴰ,
}
use pruebas_personalizadas.Prelude.Result.{ok, reject, each, ◌>>◌, ◌>>=◌}
use pruebas_personalizadas.Prelude.Lists.{any, all}
use pruebas_personalizadas.Prelude.Sets.{IsSubset, mem, subset, same_set, get}
use pruebas_personalizadas.Contracts.Enums.{
  AnchorStructure, ResponseFormat, CognitiveOperation, DifficultyBand, ReviewDecision,
}
use pruebas_personalizadas.Contracts.Locators.{same_locator}
use pruebas_personalizadas.Contracts.Blueprint.{QuestionValidationPolicy}
use pruebas_personalizadas.Contracts.Questions.{
  Transformation, ObservableElement, GuideLevel, GuideDraft, EvaluationGuideItem, GuideStatus,
  EvaluationGuide, QuestionCandidate, GenerationStatus, QuestionGenerationResult,
  QuestionSemanticReview, ReviewStatus, QuestionReviewResult, Assessment,
}
use pruebas_personalizadas.Validation.Error.{or_raise}
use pruebas_personalizadas.Validation.Context.{check_unit, validate_evidence_context}
use pruebas_personalizadas.Validation.Candidate.{
  Pattern, check_safe_generated_text, check_element, check_derivation, check_fragment,
  check_sources, check_planned, validate_question_candidate, generation_by_status,
  validate_generation_result,
}
use pruebas_personalizadas.Validation.Candidate.Derived.{
  IsDerived, validate_generation_result-IsDerived,
}
use pruebas_personalizadas.Validation.Review.{
  below_threshold, check_review, review_by_status, validate_review_result, check_level,
  check_guide_element, check_item, guide_by_status, validate_evaluation_guide,
}
use pruebas_personalizadas.Validation.Review.Gates.{
  IsGated, IsGraded, validate_review_result-IsGated, validate_evaluation_guide-IsGraded,
}
use pruebas_personalizadas.Tests.Data.{scores, locator, bundle, opportunity}

abbrev no_match : Pattern → String → Bool
no_match pattern text = false

abbrev level_of : ℕ → GuideLevel
level_of n = record {
  level = n;
  label = "level";
  descriptor = "what the answer shows";
  observable_element_ids = "ele_1" ∷ [];
}

abbrev element : ObservableElement
element = record {
  element_id = "ele_1";
  description = "names the order";
  evidence_ids = "ev_1" ∷ [];
  source_ids = [];
  required_for_level_2 = false;
}

abbrev guide_draft : GuideDraft
guide_draft = record {
  purpose = "check the order";
  observable_elements = element ∷ [];
  acceptable_alternatives = [];
  misconceptions = [];
  levels = level_of 0 ∷ level_of 1 ∷ level_of 2 ∷ level_of 3 ∷ [];
  cannot_infer = [];
}

abbrev candidate : QuestionCandidate ℕ
candidate = record {
  candidate_id = "can_1";
  submission_id = "sub_1";
  opportunity_id = "opp_1";
  opportunity_template_id = "tpl_1";
  dimension_id = "dim_1";
  variant_id = "var_1";
  cognitive_operation = CognitiveOperation.trace_flow;
  response_format = ResponseFormat.open_short;
  difficulty = DifficultyBand.medium;
  estimated_minutes = 5;
  question_text = "In which order does the queue answer?";
  anchor = record {
    anchor_id = "anc_1";
    structure = AnchorStructure.single_fragment;
    fragments =
        record {
          evidence_id = "ev_1";
          display_text = some "keeps its order";
          transformation = Transformation.literal;
          locator = locator;
        }
        ∷ [];
    student_facing_label = none;
  };
  evidence_ids = "ev_1" ∷ [];
  course_source_ids = [];
  citations = [];
  student_justification_required = false;
  preliminary_guide = guide_draft;
  uncertainties = [];
}

abbrev generation : QuestionGenerationResult ℕ
generation = record {
  submission_id = "sub_1";
  opportunity_id = "opp_1";
  status = GenerationStatus.ready;
  candidate = some candidate;
  diagnostics = [];
}

validate_generation_result_test :
    validate_generation_result scores no_match generation opportunity bundle ≡ ok tt
unfolding validate_generation_result generation_by_status or_raise ◌>>=◌ ◌>>◌ reject each any all
    validate_question_candidate validate_evidence_context check_unit same_set subset mem
    check_planned check_element check_safe_generated_text check_fragment get same_locator
    check_derivation check_sources
validate_generation_result_test = refl

validate_generation_result-IsDerived_example :
    (c : QuestionCandidate ℕ) × (generation.candidate ≡ some c)
    × IsDerived scores no_match bundle opportunity c
validate_generation_result-IsDerived_example =
    validate_generation_result-IsDerived scores no_match bundle generation opportunity
      validate_generation_result_test refl

abbrev validation_policy : QuestionValidationPolicy ℕ
validation_policy = record {
  policy_id = "pol_2";
  minimum_groundedness = 5;
  minimum_anchor_sufficiency = 5;
  minimum_answerability = 5;
  minimum_criterion_relevance = 5;
  escalate_below_confidence = 5;
  critical_failure_codes = [];
}

abbrev review : QuestionSemanticReview ℕ
review = record {
  candidate_id = "can_1";
  decision = ReviewDecision.accept;
  critical_failure_codes = [];
  scores = record {
    groundedness = 8;
    anchor_sufficiency = 8;
    criterion_relevance = 8;
    answerability = 8;
    cognitive_demand = 8;
    submission_specificity = 8;
    clarity = 8;
    accessibility = 8;
    discriminative_potential = 8;
    guide_observability = 8;
  };
  estimated_difficulty = DifficultyBand.medium;
  estimated_minutes = 5;
  confidence = 8;
  justifications = [];
  evidence_ids = "ev_1" ∷ [];
  source_ids = [];
  diagnostics = [];
}

abbrev review_result : QuestionReviewResult ℕ
review_result = record {
  submission_id = "sub_1";
  opportunity_id = "opp_1";
  status = ReviewStatus.ready;
  review = some review;
  diagnostics = [];
}

validate_review_result_test :
    validate_review_result scores review_result generation validation_policy ≡ ok tt
unfolding validate_review_result review_by_status or_raise ◌>>=◌ ◌>>◌ reject subset all mem
    check_review below_threshold
validate_review_result_test = refl

validate_review_result-IsGated_example :
    (r : QuestionSemanticReview ℕ) × (c : QuestionCandidate ℕ) × (review_result.review ≡ some r)
    × (generation.candidate ≡ some c)
    × IsGated scores validation_policy r c
    × (review_result.submission_id ≡ generation.submission_id)
    × (review_result.opportunity_id ≡ generation.opportunity_id)
validate_review_result-IsGated_example =
    validate_review_result-IsGated scores review_result generation validation_policy
      validate_review_result_test refl

abbrev assessment : Assessment
assessment = record {
  assessment_id = "ass_1";
  submission_id = "sub_1";
  questions =
      record { question_id = "que_1"; evidence_ids = "ev_1" ∷ []; course_source_ids = [] } ∷ [];
}

abbrev guide : EvaluationGuide
guide = record {
  guide_id = "gui_1";
  assessment_id = "ass_1";
  submission_id = "sub_1";
  status = GuideStatus.ready;
  items = record { question_id = "que_1"; guide = guide_draft } ∷ [];
  diagnostics = [];
}

validate_evaluation_guide_test : validate_evaluation_guide guide assessment bundle ≡ ok tt
unfolding validate_evaluation_guide guide_by_status ◌>>=◌ ◌>>◌ reject same_set subset all mem each
    check_item or_raise get check_level check_guide_element
validate_evaluation_guide_test = refl

validate_evaluation_guide-IsGraded_example :
    (guide.assessment_id ≡ assessment.assessment_id)
    × (guide.submission_id ≡ assessment.submission_id)
    × (guide.submission_id ≡ bundle.submission_id)
    × IsSubset
        (map (λ item. item.question_id) guide.items)
        (map (λ question. question.question_id) assessment.questions)
    × IsSubset
        (map (λ question. question.question_id) assessment.questions)
        (map (λ item. item.question_id) guide.items)
    × ((item : EvaluationGuideItem) → Memᴰ item guide.items → IsGraded assessment item)
validate_evaluation_guide-IsGraded_example =
    validate_evaluation_guide-IsGraded guide assessment bundle validate_evaluation_guide_test refl
