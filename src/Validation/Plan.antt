-- ===== src/Validation/Plan.antt =====
-- `validate_assessment_plan` of comprehension_verification/validation.py.
pub mod Accepted
use pruebas_personalizadas.Prelude.Common.{String, List, ◌++◌, map, Bool, true, not, ◌||◌}
use pruebas_personalizadas.Prelude.Eq.{◌==◌, nat_eq, string_eq}
use pruebas_personalizadas.Prelude.Result.{reject, ◌>>◌}
use pruebas_personalizadas.Prelude.Lists.{length}
use pruebas_personalizadas.Prelude.Sets.{subset}
use pruebas_personalizadas.Contracts.Planning.{
  EvidenceMapPatch, PlanStatus, plan_text, AssessmentPlan,
}
use pruebas_personalizadas.Validation.Error
use pruebas_personalizadas.Validation.Error.{Checked, require_unique}
use pruebas_personalizadas.Validation.Context.{non_empty, validate_complete_diagnostics}

abbrev pub planned_ids : AssessmentPlan → List String
planned_ids plan = plan.selected_opportunity_ids ++ plan.reserve_opportunity_ids

-- The two branches on the status.
unfoldable pub by_plan_status :
    PlanStatus → Checked (Unit {0}) → Checked (Unit {0}) → Checked (Unit {0})
by_plan_status PlanStatus.ready ready failed = ready
by_plan_status _ ready failed = failed

unfoldable pub validate_assessment_plan :
    {F : Type 0} → AssessmentPlan → EvidenceMapPatch F → Checked (Unit {0})
unfolding by_plan_status
validate_assessment_plan plan mapping = do
  reject (not (plan.submission_id == mapping.submission_id)) Error.cross_submission_evidence
  by_plan_status plan.status
      (do
        reject (not (length plan.selected_opportunity_ids == plan.question_count))
            Error.partial_assessment_forbidden
        reject (not (subset (planned_ids plan) (map (λ o. o.opportunity_id) mapping.opportunities)))
            Error.invented_id
        require_unique (planned_ids plan) Error.plan_duplicate_opportunity)
      (do
        reject (non_empty plan.selected_opportunity_ids || non_empty plan.reserve_opportunity_ids)
            Error.partial_assessment_forbidden
        validate_complete_diagnostics plan.diagnostics (plan_text plan.status) true)
