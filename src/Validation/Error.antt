-- ===== src/Validation/Error.antt =====
-- `ContextValidationError` of comprehension_verification/validation.py by its code (the message is
-- not modelled), and `key_error` for the `KeyError` of a subscript on a missing key.
use pruebas_personalizadas.Prelude.Common.{List, Option, none, some, ◌≡◌}
use mathlib.Core.List.{Nodup}
use pruebas_personalizadas.Prelude.Eq.{Eq}
use pruebas_personalizadas.Prelude.Result.{Result, ok, err, reject, reject-eq-ok}
use pruebas_personalizadas.Prelude.Sets.{has_duplicates, has_duplicates-false}

pub data ErrorCode : Type 0 where
  diagnostic_incomplete evidence_allowlist_mismatch cross_tenant_evidence : ErrorCode
  cross_submission_evidence evidence_role_mismatch unauthorized_source : ErrorCode
  partial_assessment_forbidden duplicate_id invented_evidence_id invented_id : ErrorCode
  blueprint_reference_mismatch unsupported_cognitive_operation evidence_mapping_uncertain :
      ErrorCode
  insufficient_relevant_evidence evidence_modality_mismatch evidence_confidence_low : ErrorCode
  unauthorized_evidence plan_duplicate_opportunity question_security_fail question_pii : ErrorCode
  response_format_not_allowed anchor_structure_not_allowed anchor_not_derivable : ErrorCode
  model_output_invalid question_policy_violation guide_incomplete key_error : ErrorCode

abbrev pub Checked : Type 0 → Type 0
Checked A = Result ErrorCode A

unfoldable pub or_raise : {A : Type 0} → Option A → ErrorCode → Checked A
or_raise none e = err e
or_raise (some a) e = ok a

-- `_require_unique`
unfoldable pub require_unique : {A : Type 0} ⦃e : Eq A⦄ → List A → ErrorCode → Checked (Unit {0})
require_unique values code = reject (has_duplicates values) code

pub or_raise-eq-ok :
    {A : Type 0} (o : Option A) (e : ErrorCode) {a : A} → or_raise o e ≡ ok a → o ≡ some a
unfolding or_raise
or_raise-eq-ok none e h = cc
or_raise-eq-ok (some a) e h = cc

pub require_unique-Nodup :
    {A : Type 0} ⦃e : Eq A⦄ (values : List A) (code : ErrorCode)
    → require_unique values code ≡ ok tt
    → Nodup values
unfolding require_unique
require_unique-Nodup values code h = has_duplicates-false values (reject-eq-ok _ _ h)
