-- ===== src/Validation/Candidate.antt =====
-- `_check_safe_generated_text`, `validate_question_candidate` and `validate_generation_result` of
-- comprehension_verification/validation.py. `search` stands for the search of a pattern of the
-- module `re` in a text.
pub mod Derived
use text.Mathlib.Text.{find?}
use pruebas_personalizadas.Prelude.Common.{
  String, Option, none, some, List, [], ◌∷◌, map, Bool, true, false, not, ◌||◌, ◌&&◌,
}
use pruebas_personalizadas.Prelude.Tests.{is_some}
use pruebas_personalizadas.Prelude.Eq.{◌==◌, nat_eq, string_eq, bool_eq}
use pruebas_personalizadas.Prelude.Result.{ok, err, reject, each, ◌>>=◌, ◌>>◌}
use pruebas_personalizadas.Prelude.Lists.{any}
use pruebas_personalizadas.Prelude.Sets.{mem, subset, same_set}
use pruebas_personalizadas.Prelude.Floats.{Floats}
use pruebas_personalizadas.Contracts.Enums.{
  ContextMode, context_mode_eq, cognitive_operation_eq, response_format_eq, difficulty_band_eq,
  anchor_structure_eq,
}
use pruebas_personalizadas.Contracts.Locators.{same_locator}
use pruebas_personalizadas.Contracts.Evidence.{EvidenceUnit, EvidenceBundle}
use pruebas_personalizadas.Contracts.Planning.{QuestionOpportunity}
use pruebas_personalizadas.Contracts.Questions.{
  Transformation, AnchorFragment, ObservableElement, QuestionCandidate, GenerationStatus,
  generation_text, QuestionGenerationResult,
}
use pruebas_personalizadas.Validation.Error
use pruebas_personalizadas.Validation.Error.{Checked, or_raise}
use pruebas_personalizadas.Validation.Context.{
  EvidenceContext, evidence_ids_of, source_ids_of, find_evidence, non_empty,
  validate_complete_diagnostics, validate_evidence_context,
}

-- A compiled pattern: its text, and whether it ignores case.
pub data Pattern : Type 0 where
  compile : (expression : String) (ignore_case : Bool) → Pattern

abbrev pub secret_patterns : List Pattern
secret_patterns =
    Pattern.compile "\\bAKIA[0-9A-Z]{16}\\b" false
    ∷ Pattern.compile "\\bsk-[A-Za-z0-9_-]{16,}\\b" false
    ∷ Pattern.compile "\\b[A-Za-z0-9._%+-]+@[A-Za-z0-9.-]+\\.[A-Za-z]{2,}\\b" false
    ∷ []

abbrev pub prohibited_claims : Pattern
prohibited_claims =
    Pattern.compile
      "\\b(detector de ia|hecho por ia|autor(?:ía)?|fraude|culpable|otro estudiante|system prompt|ignore (?:all |previous )?instructions)\\b"
      true

-- `text in source`
abbrev pub is_substring : String → String → Bool
is_substring text source = is_some (find? source text)

-- `evidence.content_text or ""`
abbrev pub text_or_empty : Option String → String
text_or_empty none = ""
text_or_empty (some text) = text

module _ {F : Type 0} (fl : Floats F) (search : Pattern → String → Bool) where
  unfoldable pub check_safe_generated_text : String → Checked (Unit {0})
  check_safe_generated_text text = do
    reject (search prohibited_claims text) Error.question_security_fail
    reject (any (λ pattern. search pattern text) secret_patterns) Error.question_pii

  -- The loop over the elements of the preliminary guide.
  unfoldable pub check_element : QuestionCandidate F → ObservableElement → Checked (Unit {0})
  check_element candidate element = do
    reject (not (subset element.evidence_ids candidate.evidence_ids)) Error.unauthorized_evidence
    reject (not (subset element.source_ids candidate.course_source_ids)) Error.unauthorized_source

  unfoldable pub check_derivation : Transformation → String → EvidenceUnit F → Checked (Unit {0})
  check_derivation Transformation.table_slice display_text evidence =
      reject (not (is_some evidence.structured_content)) Error.anchor_not_derivable
  check_derivation _ display_text evidence =
      reject (not (is_substring display_text (text_or_empty evidence.content_text)))
        Error.anchor_not_derivable

  -- The loop over the fragments of the anchor.
  unfoldable pub check_fragment : EvidenceContext F → AnchorFragment F → Checked (Unit {0})
  unfolding check_derivation
  check_fragment context fragment = do
    evidence ← or_raise (find_evidence context fragment.evidence_id) Error.invented_evidence_id
    reject (not (same_locator fl fragment.locator evidence.locator)) Error.anchor_not_derivable
    display_text ← or_raise fragment.display_text Error.anchor_not_derivable
    check_derivation fragment.transformation display_text evidence

  unfoldable pub check_sources :
      ContextMode → EvidenceContext F → QuestionCandidate F → Checked (Unit {0})
  check_sources ContextMode.closed context candidate =
      reject (non_empty candidate.course_source_ids || non_empty candidate.citations)
        Error.unauthorized_source
  check_sources ContextMode.course_enriched context candidate = do
    reject
        (not
          (same_set candidate.course_source_ids (map (λ item. item.source_id) candidate.citations)))
        Error.unauthorized_source
    reject (not (subset candidate.course_source_ids (source_ids_of context)))
        Error.unauthorized_source

  -- The candidate against the opportunity it was planned for.
  unfoldable pub check_planned : QuestionCandidate F → QuestionOpportunity F → Checked (Unit {0})
  check_planned candidate opportunity = do
    reject (not (candidate.opportunity_id == opportunity.opportunity_id)) Error.invented_id
    reject
        (not (candidate.opportunity_template_id == opportunity.opportunity_template_id)
          || not (candidate.dimension_id == opportunity.dimension_id)
          || not (candidate.variant_id == opportunity.variant_id))
        Error.blueprint_reference_mismatch
    reject (not (candidate.cognitive_operation == opportunity.cognitive_operation))
        Error.unsupported_cognitive_operation
    reject (not (mem candidate.response_format opportunity.allowed_response_formats))
        Error.response_format_not_allowed
    reject
        (not (candidate.difficulty == opportunity.difficulty)
          || not (candidate.estimated_minutes == opportunity.target_minutes)
          || not (
              candidate.student_justification_required
              == opportunity.student_justification_required))
        Error.blueprint_reference_mismatch
    reject (not (mem candidate.anchor.structure opportunity.allowed_anchor_structures))
        Error.anchor_structure_not_allowed
    reject (not (subset candidate.evidence_ids opportunity.evidence_ids))
        Error.unauthorized_evidence

  unfoldable pub validate_question_candidate :
      QuestionCandidate F → QuestionOpportunity F → EvidenceBundle F → Checked (Unit {0})
  validate_question_candidate candidate opportunity bundle = do
    context ← validate_evidence_context bundle
    reject
        (not (candidate.submission_id == bundle.submission_id)
          || not (candidate.submission_id == opportunity.submission_id))
        Error.cross_submission_evidence
    check_planned candidate opportunity
    reject (not (subset candidate.evidence_ids (evidence_ids_of context)))
        Error.invented_evidence_id
    each (check_element candidate) candidate.preliminary_guide.observable_elements
    check_safe_generated_text candidate.question_text
    each (check_fragment context) candidate.anchor.fragments
    check_sources bundle.context_mode context candidate

  unfoldable pub generation_by_status :
      GenerationStatus → Checked (Unit {0}) → Checked (Unit {0}) → Checked (Unit {0})
  generation_by_status GenerationStatus.ready ready failed = ready
  generation_by_status _ ready failed = failed

  unfoldable pub validate_generation_result :
      QuestionGenerationResult F → QuestionOpportunity F → EvidenceBundle F → Checked (Unit {0})
  unfolding generation_by_status
  validate_generation_result result opportunity bundle =
      generation_by_status result.status
        (do
          candidate ← or_raise result.candidate Error.model_output_invalid
          validate_question_candidate candidate opportunity bundle)
        (do
          reject (is_some result.candidate) Error.partial_assessment_forbidden
          validate_complete_diagnostics result.diagnostics (generation_text result.status) false)
