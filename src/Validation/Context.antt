-- ===== src/Validation/Context.antt =====
-- `EvidenceContext`, `validate_complete_diagnostics` and `validate_evidence_context` of
-- comprehension_verification/validation.py.
pub mod Ownership
use pruebas_personalizadas.Prelude.Common.{
  String, ◌≡◌, refl, Option, some, List, [], ◌∷◌, map, Bool, true, false, not, ◌&&◌,
}
use pruebas_personalizadas.Prelude.Tests.{is_some}
use pruebas_personalizadas.Prelude.Eq.{◌==◌, string_eq, option_eq}
use pruebas_personalizadas.Prelude.Result.{ok, reject, each, ◌>>◌}
use pruebas_personalizadas.Prelude.Lists.{any}
use pruebas_personalizadas.Prelude.Sets.{same_set, get}
use pruebas_personalizadas.Contracts.Enums.{
  ContextMode, Severity, ArtifactRole, artifact_role_eq, context_mode_eq,
}
use pruebas_personalizadas.Contracts.Evidence.{
  Diagnostic, EvidenceUnit, CoursePassage, EvidenceBundle,
}
use pruebas_personalizadas.Validation.Error.{
  Checked, diagnostic_incomplete, evidence_allowlist_mismatch, cross_tenant_evidence,
  cross_submission_evidence, evidence_role_mismatch, unauthorized_source,
}

-- `bool(xs)`
abbrev pub non_empty {ℓ} : {A : Type ℓ} → List A → Bool
non_empty [] = false
non_empty (x ∷ xs) = true

pub non_empty-false {ℓ} : {A : Type ℓ} (xs : List A) → non_empty xs ≡ false → xs ≡ []
non_empty-false [] h = refl
non_empty-false (x ∷ xs) h = cc

abbrev pub is_failure : Severity → Bool
is_failure Severity.error = true
is_failure Severity.critical = true
is_failure _ = false

-- The body of the loop over the diagnostics.
unfoldable pub check_diagnostic : Diagnostic → Checked (Unit {0})
check_diagnostic item = do
  reject (not (is_failure item.severity)) diagnostic_incomplete
  reject item.retryable diagnostic_incomplete

unfoldable pub validate_complete_diagnostics : List Diagnostic → String → Bool → Checked (Unit {0})
unfolding check_diagnostic
validate_complete_diagnostics diagnostics status require_matching_code = do
  reject (not (non_empty diagnostics)) diagnostic_incomplete
  reject (require_matching_code && not (any (λ item. item.code == status) diagnostics))
      diagnostic_incomplete
  each check_diagnostic diagnostics

-- The two dictionaries are kept as the lists that they are built from, and read by `get`.
pub record EvidenceContext (F : Type 0) : Type 0 where
  pub tenant_id : String
  pub submission_id : String
  pub evidence_by_id : List (EvidenceUnit F)
  pub course_sources_by_id : List (CoursePassage F)

module _ {F : Type 0} where
  abbrev pub from_bundle : EvidenceBundle F → EvidenceContext F
  from_bundle bundle = record {
    tenant_id = bundle.tenant_id;
    submission_id = bundle.submission_id;
    evidence_by_id = bundle.evidence_units;
    course_sources_by_id = bundle.course_passages;
  }

  abbrev pub evidence_ids_of : EvidenceContext F → List String
  evidence_ids_of context = map (λ unit. unit.evidence_id) context.evidence_by_id

  abbrev pub source_ids_of : EvidenceContext F → List String
  source_ids_of context = map (λ passage. passage.source_id) context.course_sources_by_id

  -- `context.evidence_by_id.get(evidence_id)`
  abbrev pub find_evidence : EvidenceContext F → String → Option (EvidenceUnit F)
  find_evidence context evidence_id =
      get (λ unit. unit.evidence_id) evidence_id context.evidence_by_id

  -- `evidence_id not in context.evidence_by_id`
  abbrev pub unknown_evidence : EvidenceContext F → String → Bool
  unknown_evidence context evidence_id = not (is_some (find_evidence context evidence_id))

  unfoldable pub check_unit : EvidenceBundle F → EvidenceUnit F → Checked (Unit {0})
  check_unit bundle evidence = do
    reject (not (evidence.tenant_id == bundle.tenant_id)) cross_tenant_evidence
    reject (not (evidence.submission_id == some bundle.submission_id)) cross_submission_evidence
    reject (not (evidence.source_role == ArtifactRole.submission)) evidence_role_mismatch

  unfoldable pub validate_evidence_context : EvidenceBundle F → Checked (EvidenceContext F)
  unfolding check_unit
  validate_evidence_context bundle = do
    let context = from_bundle bundle
    reject (not (same_set bundle.allowed_evidence_ids (evidence_ids_of context)))
        evidence_allowlist_mismatch
    each (check_unit bundle) bundle.evidence_units
    reject (bundle.context_mode == ContextMode.closed && non_empty bundle.course_passages)
        unauthorized_source
    ok context
