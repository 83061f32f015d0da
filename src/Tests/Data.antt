-- ===== src/Tests/Data.antt =====
-- A small activity: natural numbers for scores, one unit of evidence, and a blueprint of one
-- dimension, one variant and one template.
use pruebas_personalizadas.Prelude.Common.{ℕ, ◌+◌, ◌-◌, ◌*◌, refl, none, some, [], ◌∷◌, false}
use pruebas_personalizadas.Prelude.Tests.{ltb, leb, nat_beq, nat_beq_iff}
use pruebas_personalizadas.Prelude.Floats.{Floats}
use pruebas_personalizadas.Contracts.Enums.{
  ContextMode, ArtifactRole, EvidenceModality, CognitiveOperation, AnchorStructure, ResponseFormat,
  DifficultyBand, StructuredJustificationMode,
}
use pruebas_personalizadas.Contracts.Locators.{SourceLocator}
use pruebas_personalizadas.Contracts.Evidence.{EvidenceUnit, EvidenceBundle}
use pruebas_personalizadas.Contracts.Blueprint.{
  AssessmentPlanningPolicy, AssessmentBlueprint, BlueprintDimension, EvidenceVariant,
  QuestionOpportunityTemplate,
}
use pruebas_personalizadas.Contracts.Planning.{
  EvidenceMapPatch, EvidenceVariantMatch, MappingStatus, QuestionOpportunity,
}

abbrev pub scores : Floats ℕ
scores = record {
  of_int = λ n. n;
  neg = λ n. 1000 - n;
  add = λ a b. a + b;
  sub = λ a b. a - b;
  mul = λ a b. a * b;
  div = λ a b. a - b;
  lt = ltb;
  le = leb;
  same = nat_beq;
  same_refl = λ n. (nat_beq_iff n n).1 refl;
}

abbrev pub locator : SourceLocator ℕ
locator = SourceLocator.document_path (some 1) [] none none none

abbrev pub unit_one : EvidenceUnit ℕ
unit_one = record {
  evidence_id = "ev_1";
  tenant_id = "ten_1";
  submission_id = some "sub_1";
  artifact_id = "art_1";
  source_role = ArtifactRole.submission;
  modality = EvidenceModality.paragraph;
  locator = locator;
  content_text = some "the queue keeps its order";
  structured_content = none;
  extraction_confidence = 9;
}

abbrev pub bundle : EvidenceBundle ℕ
bundle = record {
  bundle_id = "bun_1";
  tenant_id = "ten_1";
  activity_id = "act_1";
  submission_id = "sub_1";
  context_mode = ContextMode.closed;
  allowed_evidence_ids = "ev_1" ∷ [];
  evidence_units = unit_one ∷ [];
  course_passages = [];
}

abbrev pub template : QuestionOpportunityTemplate ℕ
template = record {
  opportunity_template_id = "tpl_1";
  cognitive_operation = CognitiveOperation.trace_flow;
  focus = "order";
  observable = "names the order";
  difficulty = DifficultyBand.medium;
  target_minutes = 5;
  allowed_anchor_structures = AnchorStructure.single_fragment ∷ [];
  allowed_response_formats = ResponseFormat.open_short ∷ [];
  verification_potential = 8;
  minimum_quality = 5;
  student_justification_required = false;
}

abbrev pub variant : EvidenceVariant ℕ
variant = record {
  variant_id = "var_1";
  name = "queue";
  description = "a queue in the code";
  evidence_requirement = record {
    allowed_modalities = EvidenceModality.paragraph ∷ [];
    min_distinct_units = 1;
    min_extraction_confidence = 5;
    min_alignment = 5;
    cross_artifact_required = false;
    course_sources_allowed = false;
  };
  verification_potential = 8;
  supported_operations =
      record {
        cognitive_operation = CognitiveOperation.trace_flow;
        support_strength = 8;
        rationale = "flow";
      }
      ∷ [];
  question_opportunities = template ∷ [];
}

abbrev pub dimension : BlueprintDimension ℕ
dimension = record {
  dimension_id = "dim_1";
  name = "ordering";
  criterion_ids = "cri_1" ∷ [];
  learning_outcome_ids = [];
  grading_weight = none;
  verification_priority = 7;
  evidence_variants = variant ∷ [];
}

abbrev pub blueprint : AssessmentBlueprint ℕ
blueprint = record {
  blueprint_id = "blu_1";
  blueprint_version = 1;
  activity_id = "act_1";
  dimensions = dimension ∷ [];
  assessment_constraints = record {
    question_count = 1;
    target_total_minutes = 10;
    allowed_response_formats = ResponseFormat.open_short ∷ [];
    minimum_opportunity_quality = 5;
    max_reserve_opportunities = 1;
    structured_justification_policy = record {
      mode = StructuredJustificationMode.not_required;
      selected_opportunity_template_ids = [];
    };
  };
}

abbrev pub policy : AssessmentPlanningPolicy ℕ
policy = record {
  policy_id = "pol_1";
  minimum_opportunity_quality = 5;
  minimum_evidence_fit = 5;
  activity_priority_weight = 1;
  evidence_fit_weight = 1;
  opportunity_quality_weight = 1;
  repeated_dimension_penalty = 1;
  repeated_variant_penalty = 1;
  evidence_overlap_penalty = 1;
  maximum_evidence_overlap = 1;
  max_reserve_opportunities = 1;
}

abbrev pub opportunity : QuestionOpportunity ℕ
opportunity = record {
  opportunity_id = "opp_1";
  opportunity_template_id = "tpl_1";
  submission_id = "sub_1";
  dimension_id = "dim_1";
  variant_id = "var_1";
  evidence_ids = "ev_1" ∷ [];
  cognitive_operation = CognitiveOperation.trace_flow;
  focus = "order";
  observable = "names the order";
  difficulty = DifficultyBand.medium;
  target_minutes = 5;
  allowed_anchor_structures = AnchorStructure.single_fragment ∷ [];
  allowed_response_formats = ResponseFormat.open_short ∷ [];
  activity_priority = 7;
  evidence_fit = 8;
  opportunity_quality = 8;
  student_justification_required = false;
}

abbrev pub variant_match : EvidenceVariantMatch ℕ
variant_match = record {
  dimension_id = "dim_1";
  variant_id = "var_1";
  evidence_ids = "ev_1" ∷ [];
  evidence_fit = 8;
  mapping_confidence = 9;
  justification = "the paragraph describes the queue";
}

abbrev pub mapping : EvidenceMapPatch ℕ
mapping = record {
  submission_id = "sub_1";
  status = MappingStatus.ready;
  claims = [];
  variant_matches = variant_match ∷ [];
  opportunities = opportunity ∷ [];
  diagnostics = [];
}
