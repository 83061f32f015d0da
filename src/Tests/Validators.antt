-- ===== src/Tests/Validators.antt =====
-- The validators at the small activity.
use pruebas_personalizadas.Prelude.Common.{ℕ, ◌≡◌, ◌↔◌, refl, Memᴰ}
use pruebas_personalizadas.Prelude.Result.{ok, reject, each, ◌>>◌, ◌>>=◌}
use pruebas_personalizadas.Contracts.Planning.{QuestionOpportunity}
use pruebas_personalizadas.Prelude.Lists.{any, all}
use pruebas_personalizadas.Prelude.Sets.{mem, subset, same_set, distinct, has_duplicates, get}
use pruebas_personalizadas.Contracts.Compare.{same_template, same_variant}
use pruebas_personalizadas.Validation.Error.{require_unique, or_raise}
use pruebas_personalizadas.Validation.Context.{from_bundle, check_unit, validate_evidence_context}
use pruebas_personalizadas.Validation.Context.Ownership.{IsOwned, validate_evidence_context_iff}
use pruebas_personalizadas.Validation.Mapping.{
  variants_of, templates_of, select_evidence, check_requirement, check_match, inherits, check_path,
  check_evidence_source, check_opportunity, by_status, validate_ready_map, validate_evidence_map,
}
use pruebas_personalizadas.Validation.Mapping.Grounded.{
  IsGrounded, validate_evidence_map-IsGrounded,
}
use pruebas_personalizadas.Tests.Data.{scores, mapping, blueprint, bundle}

validate_evidence_context_iff_example :
    (validate_evidence_context bundle ≡ ok (from_bundle bundle)) ↔ IsOwned bundle
validate_evidence_context_iff_example = validate_evidence_context_iff bundle

validate_evidence_map_test : validate_evidence_map scores mapping blueprint bundle ≡ ok tt
unfolding validate_evidence_map ◌>>=◌ ◌>>◌ reject each validate_evidence_context check_unit same_set
    subset all mem any validate_ready_map require_unique has_duplicates distinct check_match get
    variants_of or_raise same_template same_variant check_evidence_source check_opportunity
    check_path check_requirement inherits select_evidence templates_of by_status
validate_evidence_map_test = refl

validate_evidence_map-IsGrounded_example :
    IsOwned bundle
    × (mapping.submission_id ≡ bundle.submission_id)
    × ((o : QuestionOpportunity ℕ)
        → Memᴰ o mapping.opportunities
        → IsGrounded scores blueprint (from_bundle bundle) mapping o)
validate_evidence_map-IsGrounded_example =
    validate_evidence_map-IsGrounded scores mapping blueprint bundle validate_evidence_map_test refl
