-- ===== src/Contracts/Enums.antt =====
-- The enumerations of specification/models_v1.1(1).py that the modelled parts read, each with its
-- decidable equality and the `==` that it gives.
use pruebas_personalizadas.Prelude.Eq.{Eq, eq_of}

pub data ContextMode : Type 0 where
  closed course_enriched : ContextMode

abbrev pub ContextMode-discrete : Discrete ContextMode
ContextMode-discrete = hlevel

instance abbrev pub context_mode_eq : Eq ContextMode
context_mode_eq = eq_of ContextMode-discrete

pub data Severity : Type 0 where
  info warning error critical : Severity

abbrev pub Severity-discrete : Discrete Severity
Severity-discrete = hlevel

instance abbrev pub severity_eq : Eq Severity
severity_eq = eq_of Severity-discrete

pub data ArtifactRole : Type 0 where
  assignment_prompt rubric course_source submission derived_preview : ArtifactRole

abbrev pub ArtifactRole-discrete : Discrete ArtifactRole
ArtifactRole-discrete = hlevel

instance abbrev pub artifact_role_eq : Eq ArtifactRole
artifact_role_eq = eq_of ArtifactRole-discrete

pub data EvidenceModality : Type 0 where
  heading paragraph list table cell_range formula slide_shape speaker_notes code_symbol code_span
        notebook_cell image_region chart equation other :
      EvidenceModality

abbrev pub EvidenceModality-discrete : Discrete EvidenceModality
EvidenceModality-discrete = hlevel

instance abbrev pub evidence_modality_eq : Eq EvidenceModality
evidence_modality_eq = eq_of EvidenceModality-discrete

pub data CognitiveOperation : Type 0 where
  justify_decision explain_mechanism reconstruct_reasoning connect_internal
        predict_local_consequence identify_dependency critique_limitation interpret_representation
        trace_flow :
      CognitiveOperation

abbrev pub CognitiveOperation-discrete : Discrete CognitiveOperation
CognitiveOperation-discrete = hlevel

instance abbrev pub cognitive_operation_eq : Eq CognitiveOperation
cognitive_operation_eq = eq_of CognitiveOperation-discrete

pub data AnchorStructure : Type 0 where
  single_fragment paired_fragments table_or_range code_context figure_with_context sequence
        cross_artifact :
      AnchorStructure

abbrev pub AnchorStructure-discrete : Discrete AnchorStructure
AnchorStructure-discrete = hlevel

instance abbrev pub anchor_structure_eq : Eq AnchorStructure
anchor_structure_eq = eq_of AnchorStructure-discrete

pub data ResponseFormat : Type 0 where
  open_short structured_bullets choice annotation_or_diagram oral_equivalent : ResponseFormat

abbrev pub ResponseFormat-discrete : Discrete ResponseFormat
ResponseFormat-discrete = hlevel

instance abbrev pub response_format_eq : Eq ResponseFormat
response_format_eq = eq_of ResponseFormat-discrete

pub data DifficultyBand : Type 0 where
  low medium high : DifficultyBand

abbrev pub DifficultyBand-discrete : Discrete DifficultyBand
DifficultyBand-discrete = hlevel

instance abbrev pub difficulty_band_eq : Eq DifficultyBand
difficulty_band_eq = eq_of DifficultyBand-discrete

pub data StructuredJustificationMode : Type 0 where
  not_required selected all : StructuredJustificationMode

abbrev pub StructuredJustificationMode-discrete : Discrete StructuredJustificationMode
StructuredJustificationMode-discrete = hlevel

instance abbrev pub structured_justification_mode_eq : Eq StructuredJustificationMode
structured_justification_mode_eq = eq_of StructuredJustificationMode-discrete

pub data ReviewDecision : Type 0 where
  accept reject escalate : ReviewDecision

abbrev pub ReviewDecision-discrete : Discrete ReviewDecision
ReviewDecision-discrete = hlevel

instance abbrev pub review_decision_eq : Eq ReviewDecision
review_decision_eq = eq_of ReviewDecision-discrete
