-- ===== src/Contracts/Compare.antt =====
-- `==` on the blueprint's objects: models of one class are equal when all their fields are.
use pruebas_personalizadas.Prelude.Common.{List, [], ◌∷◌, Bool, true, false, ◌&&◌, ◌||◌}
use pruebas_personalizadas.Prelude.Eq.{◌==◌, nat_eq, string_eq, bool_eq, list_eq}
use pruebas_personalizadas.Prelude.Floats.{Floats}
use pruebas_personalizadas.Contracts.Enums.{
  evidence_modality_eq, cognitive_operation_eq, anchor_structure_eq, response_format_eq,
  difficulty_band_eq,
}
use pruebas_personalizadas.Contracts.Blueprint.{
  EvidenceRequirement, SupportedOperation, QuestionOpportunityTemplate, EvidenceVariant,
}

-- `x in xs` by a given comparison, and `==` on lists by one.
abbrev pub mem_by {ℓ} : {A : Type ℓ} → (A → A → Bool) → A → List A → Bool
mem_by same x [] = false
mem_by same x (y ∷ ys) = same y x || mem_by same x ys

abbrev pub same_list {ℓ} : {A : Type ℓ} → (A → A → Bool) → List A → List A → Bool
same_list same [] [] = true
same_list same (x ∷ xs) (y ∷ ys) = same x y && same_list same xs ys
same_list same _ _ = false

module _ {F : Type 0} (fl : Floats F) where
  same_requirement : EvidenceRequirement F → EvidenceRequirement F → Bool
  same_requirement a b =
      a.allowed_modalities == b.allowed_modalities
      && a.min_distinct_units == b.min_distinct_units
      && fl.same a.min_extraction_confidence b.min_extraction_confidence
      && fl.same a.min_alignment b.min_alignment
      && a.cross_artifact_required == b.cross_artifact_required
      && a.course_sources_allowed == b.course_sources_allowed

  same_operation : SupportedOperation F → SupportedOperation F → Bool
  same_operation a b =
      a.cognitive_operation == b.cognitive_operation
      && fl.same a.support_strength b.support_strength
      && a.rationale == b.rationale

  unfoldable pub same_template :
      QuestionOpportunityTemplate F → QuestionOpportunityTemplate F → Bool
  same_template a b =
      a.opportunity_template_id == b.opportunity_template_id
      && a.cognitive_operation == b.cognitive_operation
      && a.focus == b.focus
      && a.observable == b.observable
      && a.difficulty == b.difficulty
      && a.target_minutes == b.target_minutes
      && a.allowed_anchor_structures == b.allowed_anchor_structures
      && a.allowed_response_formats == b.allowed_response_formats
      && fl.same a.verification_potential b.verification_potential
      && fl.same a.minimum_quality b.minimum_quality
      && a.student_justification_required == b.student_justification_required

  unfoldable pub same_variant : EvidenceVariant F → EvidenceVariant F → Bool
  unfolding same_requirement same_operation same_template
  same_variant a b =
      a.variant_id == b.variant_id
      && a.name == b.name
      && a.description == b.description
      && same_requirement a.evidence_requirement b.evidence_requirement
      && fl.same a.verification_potential b.verification_potential
      && same_list same_operation a.supported_operations b.supported_operations
      && same_list same_template a.question_opportunities b.question_opportunities
