-- ===== src/Validation/Mapping.antt =====
-- `_blueprint_index` and `validate_evidence_map` of comprehension_verification/validation.py.
-- A dictionary built from the blueprint is the list of its entries, in the order of the
-- comprehension, read by `get`.
pub mod Selection
pub mod Grounded
use pruebas_personalizadas.Prelude.Common.{
  String, Option, none, some, List, [], ◌∷◌, ◌++◌, map, Bool, true, not, ◌&&◌, ◌||◌,
}
use Prim.Native.String.{◌++◌ as join}
use pruebas_personalizadas.Prelude.Tests.{if◌then◌else◌, ltb, is_some}
use pruebas_personalizadas.Prelude.Eq.{◌==◌, nat_eq, string_eq, bool_eq, list_eq, pair_eq}
use pruebas_personalizadas.Prelude.Result.{ok, reject, each, ◌>>=◌, ◌>>◌}
use pruebas_personalizadas.Prelude.Lists.{length, any}
use pruebas_personalizadas.Prelude.Sets.{mem, subset, distinct, get}
use pruebas_personalizadas.Prelude.Floats.{Floats}
use pruebas_personalizadas.Contracts.Enums.{
  CognitiveOperation, cognitive_operation_eq, evidence_modality_eq, difficulty_band_eq,
  anchor_structure_eq, response_format_eq,
}
use pruebas_personalizadas.Contracts.Evidence.{EvidenceUnit, EvidenceBundle}
use pruebas_personalizadas.Contracts.Blueprint.{
  EvidenceRequirement, QuestionOpportunityTemplate, EvidenceVariant, BlueprintDimension,
  AssessmentBlueprint,
}
use pruebas_personalizadas.Contracts.Planning.{
  EvidenceAlignment, EvidenceClaim, EvidenceVariantMatch, QuestionOpportunity, EvidenceMapPatch,
  MappingStatus, mapping_text,
}
use pruebas_personalizadas.Contracts.Compare.{mem_by, same_template, same_variant}
use pruebas_personalizadas.Validation.Error
use pruebas_personalizadas.Validation.Error.{ErrorCode, Checked, or_raise, require_unique}
use pruebas_personalizadas.Validation.Context.{
  EvidenceContext, find_evidence, unknown_evidence, non_empty, validate_complete_diagnostics,
  validate_evidence_context,
}

-- A variant with the dimension it stands in, and a template with its variant.
abbrev pub VariantEntry : Type 0 → Type 0
VariantEntry F = BlueprintDimension F × EvidenceVariant F

abbrev pub TemplateEntry : Type 0 → Type 0
TemplateEntry F = EvidenceVariant F × QuestionOpportunityTemplate F

module _ {F : Type 0} where
  unfoldable pub variants_of : List (BlueprintDimension F) → List (VariantEntry F)
  variants_of [] = []
  variants_of (d ∷ ds) = map (λ v. (d, v)) d.evidence_variants ++ variants_of ds

  unfoldable pub templates_of : List (VariantEntry F) → List (TemplateEntry F)
  templates_of [] = []
  templates_of ((d, v) ∷ vs) = map (λ t. (v, t)) v.question_opportunities ++ templates_of vs

  abbrev pub find_dimension : AssessmentBlueprint F → String → Option (BlueprintDimension F)
  find_dimension blueprint id = get (λ d. d.dimension_id) id blueprint.dimensions

  abbrev variant_key : VariantEntry F → String
  variant_key (d, v) = v.variant_id

  abbrev template_key : TemplateEntry F → String
  template_key (v, t) = t.opportunity_template_id

  -- The entry of `variants` and of `variant_dimension_ids` at one id.
  abbrev pub find_variant : AssessmentBlueprint F → String → Option (VariantEntry F)
  find_variant blueprint id = get variant_key id (variants_of blueprint.dimensions)

  -- The entry of `templates` and of `template_variant_ids` at one id.
  abbrev pub find_template : AssessmentBlueprint F → String → Option (TemplateEntry F)
  find_template blueprint id = get template_key id (templates_of (variants_of blueprint.dimensions))

  abbrev pub operations_of : EvidenceVariant F → List CognitiveOperation
  operations_of v = map (λ s. s.cognitive_operation) v.supported_operations

  -- `[context.evidence_by_id[evidence_id] for evidence_id in evidence_ids]`
  unfoldable pub select_evidence : EvidenceContext F → List String → Checked (List (EvidenceUnit F))
  select_evidence context [] = ok []
  select_evidence context (id ∷ ids) = do
    unit ← or_raise (find_evidence context id) Error.key_error
    units ← select_evidence context ids
    ok (unit ∷ units)

  -- `matches_by_path.get((dimension_id, variant_id))`
  abbrev pub find_match :
      List (EvidenceVariantMatch F) → String × String → Option (EvidenceVariantMatch F)
  find_match matches path = get (λ m. (m.dimension_id, m.variant_id)) path matches

module _ {F : Type 0} (fl : Floats F) (context : EvidenceContext F) where
  -- The tests on the selected evidence, which matches and opportunities share.
  unfoldable pub check_requirement :
      EvidenceRequirement F → List String → List (EvidenceUnit F) → Checked (Unit {0})
  check_requirement requirement evidence_ids selected = do
    reject (ltb (length (distinct evidence_ids)) requirement.min_distinct_units)
        Error.insufficient_relevant_evidence
    reject (any (λ unit. not (mem unit.modality requirement.allowed_modalities)) selected)
        Error.evidence_modality_mismatch
    reject
        (any (λ unit. fl.lt unit.extraction_confidence requirement.min_extraction_confidence)
          selected)
        Error.evidence_confidence_low
    reject
        (requirement.cross_artifact_required
          && ltb (length (distinct (map (λ unit. unit.artifact_id) selected))) 2)
        Error.insufficient_relevant_evidence

module _ {F : Type 0} (blueprint : AssessmentBlueprint F) where
  -- The loop over the variants of one alignment; it adds to `allowed_operations`.
  unfoldable pub check_alignment_variants :
      EvidenceAlignment F
      → List String
      → List CognitiveOperation
      → Checked (List CognitiveOperation)
  check_alignment_variants alignment [] allowed = ok allowed
  check_alignment_variants alignment (variant_id ∷ ids) allowed = do
    (dimension, variant) ← or_raise (find_variant blueprint variant_id) Error.invented_id
    reject (not (dimension.dimension_id == alignment.dimension_id))
        Error.blueprint_reference_mismatch
    check_alignment_variants alignment ids (allowed ++ operations_of variant)

  -- The loop over the alignments of one claim.
  unfoldable pub check_alignments :
      List (EvidenceAlignment F) → List CognitiveOperation → Checked (List CognitiveOperation)
  check_alignments [] allowed = ok allowed
  check_alignments (alignment ∷ rest) allowed = do
    dimension ← or_raise (find_dimension blueprint alignment.dimension_id) Error.invented_id
    reject (not (subset alignment.criterion_ids dimension.criterion_ids))
        Error.blueprint_reference_mismatch
    allowed' ← check_alignment_variants alignment alignment.variant_ids allowed
    check_alignments rest allowed'

  unfoldable pub check_claim : EvidenceContext F → EvidenceClaim F → Checked (Unit {0})
  check_claim context claim = do
    reject (any (unknown_evidence context) claim.evidence_ids) Error.invented_evidence_id
    allowed ← check_alignments claim.alignments []
    reject (not (subset claim.supported_operations allowed)) Error.unsupported_cognitive_operation

  module _ (fl : Floats F) (context : EvidenceContext F) where
    unfoldable pub check_match : EvidenceVariantMatch F → Checked (Unit {0})
    check_match m = do
      reject
          (not (is_some (find_dimension blueprint m.dimension_id))
            || not (is_some (find_variant blueprint m.variant_id)))
          Error.invented_id
      (dimension, variant) ← or_raise (find_variant blueprint m.variant_id) Error.key_error
      reject (not (dimension.dimension_id == m.dimension_id)) Error.blueprint_reference_mismatch
      reject (any (unknown_evidence context) m.evidence_ids) Error.invented_evidence_id
      require_unique m.evidence_ids Error.duplicate_id
      selected ← select_evidence context m.evidence_ids
      reject (fl.lt m.mapping_confidence variant.evidence_requirement.min_alignment)
          Error.evidence_mapping_uncertain
      check_requirement fl context variant.evidence_requirement m.evidence_ids selected

    -- `inherited`
    unfoldable pub inherits :
        BlueprintDimension F → QuestionOpportunityTemplate F → QuestionOpportunity F → Bool
    inherits dimension template o =
        o.focus == template.focus
        && o.observable == template.observable
        && o.difficulty == template.difficulty
        && o.target_minutes == template.target_minutes
        && o.allowed_anchor_structures == template.allowed_anchor_structures
        && o.allowed_response_formats == template.allowed_response_formats
        && o.student_justification_required == template.student_justification_required
        && fl.same o.activity_priority dimension.verification_priority

    -- The opportunity's place in the blueprint: its dimension, its variant and its template.
    unfoldable pub check_path :
        QuestionOpportunity F
        → Checked (BlueprintDimension F × EvidenceVariant F × QuestionOpportunityTemplate F)
    check_path o = do
      dimension ← or_raise (find_dimension blueprint o.dimension_id) Error.invented_id
      (owner, variant) ← or_raise (find_variant blueprint o.variant_id) Error.invented_id
      (parent, template) ←
          or_raise (find_template blueprint o.opportunity_template_id) Error.invented_id
      reject
          (not (mem_by (same_variant fl) variant dimension.evidence_variants)
            || not (mem_by (same_template fl) template variant.question_opportunities))
          Error.blueprint_reference_mismatch
      reject (not (owner.dimension_id == o.dimension_id) || not (parent.variant_id == o.variant_id))
          Error.blueprint_reference_mismatch
      ok (dimension, variant, template)

    -- The opportunity against its validated match.
    unfoldable pub check_evidence_source :
        List (EvidenceVariantMatch F) → QuestionOpportunity F → Checked (Unit {0})
    check_evidence_source matches o = do
      m ←
          or_raise (find_match matches (o.dimension_id, o.variant_id))
            Error.blueprint_reference_mismatch
      reject (any (unknown_evidence context) o.evidence_ids) Error.invented_evidence_id
      reject (not (subset o.evidence_ids m.evidence_ids)) Error.unauthorized_evidence
      reject (not (fl.same o.evidence_fit m.evidence_fit)) Error.blueprint_reference_mismatch

    unfoldable pub check_opportunity :
        EvidenceMapPatch F → QuestionOpportunity F → Checked (Unit {0})
    check_opportunity mapping o = do
      reject (not (o.submission_id == mapping.submission_id)) Error.cross_submission_evidence
      (dimension, variant, template) ← check_path o
      check_evidence_source mapping.variant_matches o
      reject (not (mem o.cognitive_operation (operations_of variant)))
          Error.unsupported_cognitive_operation
      reject (not (o.cognitive_operation == template.cognitive_operation))
          Error.unsupported_cognitive_operation
      reject (not (inherits dimension template o)) Error.blueprint_reference_mismatch
      reject (any (unknown_evidence context) o.evidence_ids) Error.invented_evidence_id
      require_unique o.evidence_ids Error.duplicate_id
      selected ← select_evidence context o.evidence_ids
      check_requirement fl context variant.evidence_requirement o.evidence_ids selected

module _ {F : Type 0} where
  -- `f"{match.dimension_id}:{match.variant_id}"`
  abbrev match_path : EvidenceVariantMatch F → String
  match_path m = join m.dimension_id (join ":" m.variant_id)

-- `if mapping.status != "READY": ...; return` in front of the rest.
unfoldable pub by_status : {A : Type 0} → MappingStatus → A → A → A
by_status MappingStatus.ready ready failed = ready
by_status _ ready failed = failed

module _ {F : Type 0} (fl : Floats F) where
  -- The part behind the test of the status.
  unfoldable pub validate_ready_map :
      EvidenceContext F → EvidenceMapPatch F → AssessmentBlueprint F → Checked (Unit {0})
  validate_ready_map context mapping blueprint = do
    require_unique (map (λ claim. claim.claim_id) mapping.claims) Error.duplicate_id
    require_unique (map match_path mapping.variant_matches) Error.duplicate_id
    each (check_claim blueprint context) mapping.claims
    each (check_match blueprint fl context) mapping.variant_matches
    each (check_opportunity blueprint fl context mapping) mapping.opportunities

  unfoldable pub validate_failed_map : EvidenceMapPatch F → Checked (Unit {0})
  validate_failed_map mapping = do
    reject
        (non_empty mapping.opportunities
          || non_empty mapping.claims
          || non_empty mapping.variant_matches)
        Error.partial_assessment_forbidden
    validate_complete_diagnostics mapping.diagnostics (mapping_text mapping.status) true

  unfoldable pub validate_evidence_map :
      EvidenceMapPatch F → AssessmentBlueprint F → EvidenceBundle F → Checked (Unit {0})
  unfolding by_status
  validate_evidence_map mapping blueprint bundle = do
    context ← validate_evidence_context bundle
    reject (not (mapping.submission_id == bundle.submission_id)) Error.cross_submission_evidence
    by_status mapping.status (validate_ready_map context mapping blueprint)
        (validate_failed_map mapping)
