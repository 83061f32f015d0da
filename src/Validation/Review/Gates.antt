-- ===== src/Validation/Review/Gates.antt =====
-- What an accepted review and an accepted guide promise.
use pruebas_personalizadas.Prelude.Common.{◌≡◌, some, [], ◌∷◌, map, false, Memᴰ}
use pruebas_personalizadas.Prelude.Tests.{or-false, not-false, and-false_right}
use pruebas_personalizadas.Prelude.Eq.{nat_eq, string_eq, list_eq, eq_of_not-ne}
use pruebas_personalizadas.Prelude.Result.{
  ok, each, >>-eq-ok, >>=-eq-ok, reject->>-eq-ok, reject-eq-ok, each-mem,
}
use pruebas_personalizadas.Prelude.Sets.{IsSubset, subset-true, same_set-true, get-some}
use pruebas_personalizadas.Prelude.Floats.{Floats}
use pruebas_personalizadas.Contracts.Enums.{ReviewDecision, review_decision_eq, difficulty_band_eq}
use pruebas_personalizadas.Contracts.Evidence.{EvidenceBundle}
use pruebas_personalizadas.Contracts.Blueprint.{QuestionValidationPolicy}
use pruebas_personalizadas.Contracts.Questions.{
  ObservableElement, GuideLevel, EvaluationGuideItem, GuideStatus, EvaluationGuide,
  SelectedQuestion, Assessment, QuestionCandidate, QuestionGenerationResult, QuestionSemanticReview,
  ReviewStatus, QuestionReviewResult,
}
use pruebas_personalizadas.Validation.Error.{or_raise-eq-ok}
use pruebas_personalizadas.Validation.Context.{non_empty-false}
use pruebas_personalizadas.Validation.Review.{
  below_threshold, check_review, review_by_status, validate_review_result, check_level,
  check_guide_element, check_item, guide_by_status, validate_evaluation_guide,
}

module _ {F : Type 0} (fl : Floats F) where
  -- A review of this candidate, bound to its evidence, that meets every floor when it accepts.
  pub record IsGated (policy : QuestionValidationPolicy F) (review : QuestionSemanticReview F)
      (candidate : QuestionCandidate F) : Type 0 where
    pub candidate_named : review.candidate_id ≡ candidate.candidate_id
    pub evidence : IsSubset review.evidence_ids candidate.evidence_ids
    pub sources : IsSubset review.source_ids candidate.course_source_ids
    pub difficulty : review.estimated_difficulty ≡ candidate.difficulty
    pub minutes : review.estimated_minutes ≡ candidate.estimated_minutes
    pub no_failure : review.decision ≡ ReviewDecision.accept → review.critical_failure_codes ≡ []
    pub floors :
        review.decision ≡ ReviewDecision.accept
        → (fl.lt review.scores.groundedness policy.minimum_groundedness ≡ false)
          × (fl.lt review.scores.anchor_sufficiency policy.minimum_anchor_sufficiency ≡ false)
          × (fl.lt review.scores.criterion_relevance policy.minimum_criterion_relevance ≡ false)
          × (fl.lt review.scores.answerability policy.minimum_answerability ≡ false)
          × (fl.lt review.confidence policy.escalate_below_confidence ≡ false)

  check_review-IsGated :
      (result : QuestionReviewResult F) (generation : QuestionGenerationResult F)
      (review : QuestionSemanticReview F) (candidate : QuestionCandidate F)
      (policy : QuestionValidationPolicy F)
      → check_review fl result generation review candidate policy ≡ ok tt
      → IsGated policy review candidate
        × (result.submission_id ≡ generation.submission_id)
        × (result.opportunity_id ≡ generation.opportunity_id)
  unfolding check_review below_threshold
  check_review-IsGated result generation review candidate policy h =
      let (named, h1) = reject->>-eq-ok _ _ _ h in
      let (request, h2) = reject->>-eq-ok _ _ _ h1 in
      let (evidence, h3) = reject->>-eq-ok _ _ _ h2 in
      let (sources, h4) = reject->>-eq-ok _ _ _ h3 in
      let (planned, h5) = reject->>-eq-ok _ _ _ h4 in
      let (submission, opportunity) = or-false _ _ request in
      let (difficulty, minutes) = or-false _ _ planned in
      let gate : review.decision ≡ ReviewDecision.accept → _ = λ e. or-false _ _ (
        and-false_right ((review_decision_eq.beq_iff review.decision _).1 e)
          (reject-eq-ok _ _ h5)) in
      (
        record {
          candidate_named = eq_of_not-ne _ _ named;
          evidence = subset-true _ _ (not-false evidence);
          sources = subset-true _ _ (not-false sources);
          difficulty = eq_of_not-ne review.estimated_difficulty candidate.difficulty difficulty;
          minutes = eq_of_not-ne review.estimated_minutes candidate.estimated_minutes minutes;
          no_failure = λ e. non_empty-false _ (gate e).1;
          floors = λ e.
              let (rest, confidence) = or-false _ _ (gate e).0 in
              let (rest', answerability) = or-false _ _ rest in
              let (rest'', relevance) = or-false _ _ rest' in
              let (groundedness, anchor) = or-false _ _ rest'' in
              (groundedness, anchor, relevance, answerability, confidence);
        },
        eq_of_not-ne _ _ submission,
        eq_of_not-ne _ _ opportunity,
      )

  -- A READY review that is accepted is of the generated candidate and of the same request, uses its
  -- evidence and sources alone, keeps its difficulty and time, and, when it decides to accept, has no
  -- critical failure and reaches each of the five floors of the policy.
  pub validate_review_result-IsGated :
      (result : QuestionReviewResult F) (generation : QuestionGenerationResult F)
      (policy : QuestionValidationPolicy F)
      → validate_review_result fl result generation policy ≡ ok tt
      → result.status ≡ ReviewStatus.ready
      → (review : QuestionSemanticReview F) × (candidate : QuestionCandidate F) × (result.review
          ≡ some review)
        × (generation.candidate ≡ some candidate)
        × IsGated policy review candidate
        × (result.submission_id ≡ generation.submission_id)
        × (result.opportunity_id ≡ generation.opportunity_id)
  unfolding validate_review_result review_by_status check_review
  validate_review_result-IsGated result generation policy h ready =
      let (review, r, h1) = >>=-eq-ok _ _ (rw (ready, validate_review_result) at h) in
      let (candidate, c, h2) = >>=-eq-ok _ _ h1 in
      let (gated, submission, opportunity) =
        check_review-IsGated result generation review candidate policy h2 in
      (
        review,
        candidate,
        or_raise-eq-ok _ _ r,
        or_raise-eq-ok _ _ c,
        gated,
        submission,
        opportunity,
      )

-- An item of the guide that grades one question of the assessment on its own evidence.
pub record IsGraded (assessment : Assessment) (item : EvaluationGuideItem) : Type 0 where
  pub question : SelectedQuestion
  pub held : Memᴰ question assessment.questions
  pub named : question.question_id ≡ item.question_id
  pub levels : map (λ level. level.level) item.guide.levels ≡ 0 ∷ 1 ∷ 2 ∷ 3 ∷ []
  pub described :
      (level : GuideLevel)
      → Memᴰ level item.guide.levels
      → IsSubset level.observable_element_ids
          (map (λ element. element.element_id) item.guide.observable_elements)
  pub bound :
      (element : ObservableElement)
      → Memᴰ element item.guide.observable_elements
      → IsSubset element.evidence_ids question.evidence_ids
        × IsSubset element.source_ids question.course_source_ids

check_guide_element-subset :
    (question : SelectedQuestion) (element : ObservableElement)
    → check_guide_element question element ≡ ok tt
    → IsSubset element.evidence_ids question.evidence_ids
      × IsSubset element.source_ids question.course_source_ids
unfolding check_guide_element
check_guide_element-subset question element h =
    let (evidence, h1) = reject->>-eq-ok _ _ _ h in
    (subset-true _ _ (not-false evidence), subset-true _ _ (not-false (reject-eq-ok _ _ h1)))

check_item-IsGraded :
    (assessment : Assessment) (item : EvaluationGuideItem)
    → check_item assessment item ≡ ok tt
    → IsGraded assessment item
unfolding check_item check_level
check_item-IsGraded assessment item h =
    let (question, found, h1) = >>=-eq-ok _ _ h in
    let (levels, h2) = reject->>-eq-ok _ _ _ h1 in
    let (described, bound) = >>-eq-ok (each _ _) _ h2 in
    let (held, named) =
      get-some (λ (q : SelectedQuestion). q.question_id) item.question_id assessment.questions
        (or_raise-eq-ok _ _ found) in
    record {
      question = question;
      held = held;
      named = named;
      levels = eq_of_not-ne (map (λ level. level.level) item.guide.levels) _ levels;
      described = λ level m.
          subset-true _ _ (not-false (reject-eq-ok _ _ (each-mem _ _ described.1 level m)));
      bound =
          λ element m. check_guide_element-subset question element (each-mem _ _ bound element m);
    }

-- A READY guide that is accepted is of this assessment and of the submission of the bundle, has items
-- for exactly the questions of the assessment, and each item has the levels 0 to 3 in order, over its
-- own observable elements, on the evidence and sources of its question.
pub validate_evaluation_guide-IsGraded :
    {F : Type 0} (guide : EvaluationGuide) (assessment : Assessment) (bundle : EvidenceBundle F)
    → validate_evaluation_guide guide assessment bundle ≡ ok tt
    → guide.status ≡ GuideStatus.ready
    → (guide.assessment_id ≡ assessment.assessment_id)
      × (guide.submission_id ≡ assessment.submission_id)
      × (guide.submission_id ≡ bundle.submission_id)
      × IsSubset
          (map (λ item. item.question_id) guide.items)
          (map (λ question. question.question_id) assessment.questions)
      × IsSubset
          (map (λ question. question.question_id) assessment.questions)
          (map (λ item. item.question_id) guide.items)
      × ((item : EvaluationGuideItem) → Memᴰ item guide.items → IsGraded assessment item)
unfolding validate_evaluation_guide guide_by_status
validate_evaluation_guide-IsGraded guide assessment bundle h ready =
    let (named, h1) = reject->>-eq-ok _ _ _ h in
    let (submission, h2) = reject->>-eq-ok _ _ _ h1 in
    let (here, there) = or-false _ _ submission in
    let (covered, items) = reject->>-eq-ok _ _ _ (rw (ready, guide_by_status) at h2) in
    let (all, only) = same_set-true _ _ (not-false covered) in
    (
      eq_of_not-ne _ _ named,
      eq_of_not-ne _ _ here,
      eq_of_not-ne _ _ there,
      all,
      only,
      λ item m. check_item-IsGraded assessment item (each-mem _ _ items item m),
    )
