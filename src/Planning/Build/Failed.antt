-- ===== src/Planning/Build/Failed.antt =====
-- A plan that is not READY is empty and carries a complete diagnostic.
use pruebas_personalizadas.Prelude.Common.{ℕ, ◌≡◌, refl, subst, String, List, [], ◌∷◌, true, false}
use pruebas_personalizadas.Prelude.Eq.{string_eq}
use pruebas_personalizadas.Prelude.Lists.{any}
use pruebas_personalizadas.Prelude.Result.{ok, reject, each, ◌>>◌, >>=-eq-ok}
use pruebas_personalizadas.Prelude.Floats.{Floats}
use pruebas_personalizadas.Contracts.Enums.{Severity}
use pruebas_personalizadas.Contracts.Evidence.{Detail, Diagnostic}
use pruebas_personalizadas.Contracts.Blueprint.{AssessmentBlueprint}
use pruebas_personalizadas.Contracts.Planning.{
  EvidenceMapPatch, MappingStatus, PlanStatus, plan_text, AssessmentPlan,
}
use pruebas_personalizadas.Validation.Context.{validate_complete_diagnostics, check_diagnostic}
use pruebas_personalizadas.Diagnostics.{diagnostic}
use pruebas_personalizadas.Planning.Build.{Part, is_ready, complete_failure, failure_from_mapping}
use pruebas_personalizadas.Planning.Build.Created.{create_plan-Atomic, diagnostic-eq-ok}

-- A failed plan: no opportunity, no minutes, and diagnostics that the validator takes as complete.
pub record FailClosed (submission_id : String) (plan : AssessmentPlan) : Type 0 where
  pub owner : plan.submission_id ≡ submission_id
  pub failed : is_ready plan.status ≡ false
  pub no_primary : plan.selected_opportunity_ids ≡ []
  pub no_reserve : plan.reserve_opportunity_ids ≡ []
  pub no_minutes : plan.estimated_total_minutes ≡ 0
  pub explained :
      validate_complete_diagnostics plan.diagnostics (plan_text plan.status) true ≡ ok tt

single_diagnostic :
    (item : Diagnostic) (status : String)
    → item.code ≡ status
    → item.severity ≡ Severity.error
    → item.retryable ≡ false
    → validate_complete_diagnostics (item ∷ []) status true ≡ ok tt
unfolding validate_complete_diagnostics check_diagnostic any each reject ◌>>◌
single_diagnostic item status c s r = rw ((string_eq.beq_iff item.code status).1 c, s, r) refl

module _ {F : Type 0} (fl : Floats F) (stable_id : String → List Part → String) where
  pub complete_failure-FailClosed :
      (status : PlanStatus) (submission_id : String) (blueprint : AssessmentBlueprint F)
      (question_count : ℕ) (evidence_ids : List String) (details : List (String × Detail))
      {plan : AssessmentPlan}
      → is_ready status ≡ false
      → complete_failure fl stable_id status submission_id blueprint question_count evidence_ids
          details
        ≡ ok plan
      → FailClosed submission_id plan
  unfolding complete_failure
  complete_failure-FailClosed status submission_id blueprint question_count evidence_ids details f
        h =
      let (item, made, h1) = >>=-eq-ok (diagnostic _ _ _ _ _ _ _) _ h in
      let (code, severity, retryable) = diagnostic-eq-ok _ _ _ _ _ _ _ made in
      let (same, atomic) = create_plan-Atomic _ h1 in
      subst (FailClosed submission_id) same (record {
        owner = refl;
        failed = f;
        no_primary = refl;
        no_reserve = refl;
        no_minutes = refl;
        explained = single_diagnostic item (plan_text status) code severity retryable;
      })

  pub failure_from_mapping-FailClosed :
      (mapping : EvidenceMapPatch F) (blueprint : AssessmentBlueprint F) (question_count : ℕ)
      {plan : AssessmentPlan}
      → failure_from_mapping fl stable_id mapping blueprint question_count ≡ ok plan
      → FailClosed mapping.submission_id plan
  unfolding failure_from_mapping
  failure_from_mapping-FailClosed mapping blueprint question_count {plan} h =
      go mapping.status refl h
    where
      go :
          (status : MappingStatus)
          → mapping.status ≡ status
          → failure_from_mapping fl stable_id mapping blueprint question_count ≡ ok plan
          → FailClosed mapping.submission_id plan
      go MappingStatus.ready e k = cc (rw (e, failure_from_mapping) at k)
      go MappingStatus.insufficient_relevant_evidence e k =
          complete_failure-FailClosed _ _ _ _ _ _ refl (rw (e, failure_from_mapping) at k)
      go MappingStatus.insufficient_distinct_question_opportunities e k =
          complete_failure-FailClosed _ _ _ _ _ _ refl (rw (e, failure_from_mapping) at k)
      go MappingStatus.evidence_mapping_uncertain e k =
          complete_failure-FailClosed _ _ _ _ _ _ refl (rw (e, failure_from_mapping) at k)
      go MappingStatus.technical_failure e k = cc (rw (e, failure_from_mapping) at k)
