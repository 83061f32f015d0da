-- ===== src/Contracts/Evidence.antt =====
-- Diagnostics, evidence and the allowlisted bundle of specification/models_v1.1(1).py. `F` is the type
-- of scores. Of a structured content only its presence is read, so its JSON text stands for it.
use pruebas_personalizadas.Prelude.Common.{ℕ, String, Option, List, Bool}
use pruebas_personalizadas.Contracts.Enums.{ContextMode, Severity, ArtifactRole, EvidenceModality}
use pruebas_personalizadas.Contracts.Locators.{SourceLocator}

-- A value of a diagnostic's `details`.
pub data Detail : Type 0 where
  number : ℕ → Detail
  text : String → Detail

pub record Diagnostic : Type 0 where
  pub code : String
  pub severity : Severity
  pub message : String
  pub evidence_ids : List String
  pub source_ids : List String
  pub retryable : Bool
  pub details : List (String × Detail)

pub record EvidenceUnit (F : Type 0) : Type 0 where
  pub evidence_id : String
  pub tenant_id : String
  pub submission_id : Option String
  pub artifact_id : String
  pub source_role : ArtifactRole
  pub modality : EvidenceModality
  pub locator : SourceLocator F
  pub content_text : Option String
  pub structured_content : Option String
  pub extraction_confidence : F

pub record CoursePassage (F : Type 0) : Type 0 where
  pub source_id : String
  pub artifact_id : String
  pub title : String
  pub locator : SourceLocator F
  pub content_text : String
  pub extraction_confidence : F

pub record SourceCitation (F : Type 0) : Type 0 where
  pub source_id : String
  pub locator : SourceLocator F
  pub supported_claim : String

pub record EvidenceBundle (F : Type 0) : Type 0 where
  pub bundle_id : String
  pub tenant_id : String
  pub activity_id : String
  pub submission_id : String
  pub context_mode : ContextMode
  pub allowed_evidence_ids : List String
  pub evidence_units : List (EvidenceUnit F)
  pub course_passages : List (CoursePassage F)
