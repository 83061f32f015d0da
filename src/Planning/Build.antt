-- ===== src/Planning/Build.antt =====
-- The reserve, the complete failures and `build_assessment_plan` of
-- comprehension_verification/planning.py. `stable_id` stands for `stable_id("plan", …)`, whose digits
-- are those of hashlib's SHA-256.
pub mod Created
pub mod Failed
pub mod Reserved
pub mod Ready
pub mod Distinct
pub mod Refused
pub mod Kept
pub mod Total
use pruebas_personalizadas.Prelude.Common.{
  ℕ, String, Option, none, some, List, [], ◌∷◌, ◌++◌, map, Bool, true, false, not, ◌&&◌, ◌||◌,
}
use pruebas_personalizadas.Prelude.Tests.{if◌then◌else◌, ltb, nat_beq}
use pruebas_personalizadas.Prelude.Eq.{◌==◌, nat_eq, string_eq, bool_eq}
use pruebas_personalizadas.Prelude.Result.{ok, err, reject, ◌>>=◌, ◌>>◌}
use pruebas_personalizadas.Prelude.Lists.{length, take, any}
use pruebas_personalizadas.Prelude.Sets.{mem, distinct, has_duplicates}
use pruebas_personalizadas.Prelude.Sort.{sort}
use pruebas_personalizadas.Prelude.Floats.{Floats}
use pruebas_personalizadas.Contracts.Enums.{Severity}
use pruebas_personalizadas.Contracts.Evidence.{Detail, Diagnostic}
use pruebas_personalizadas.Contracts.Blueprint.{AssessmentPlanningPolicy, AssessmentBlueprint}
use pruebas_personalizadas.Contracts.Planning.{
  QuestionOpportunity, EvidenceMapPatch, MappingStatus, mapping_text, PlanStatus, plan_text,
  AssessmentPlan,
}
use pruebas_personalizadas.Validation.Context.{non_empty}
use pruebas_personalizadas.Diagnostics.{ModelError, Made, diagnostic}
use pruebas_personalizadas.Planning.Scores.{
  ScoredOpportunity, str_lt, sum_minutes, same_opportunity, marginal_score, key_lt,
}
use pruebas_personalizadas.Planning.Search.{
  State, valid_candidates, items_at, unselected, flags, select_exact,
}

-- An argument of `stable_id`.
pub data Part : Type 0 where
  text : String → Part
  number : ℕ → Part
  texts : List String → Part

abbrev pub beam_width : ℕ
beam_width = 512

abbrev pub planner_version : String
planner_version = "stage0-planner/1.0.0"

abbrev pub is_ready : PlanStatus → Bool
is_ready PlanStatus.ready = true
is_ready _ = false

-- The bounds of the fields of `AssessmentPlan` and its validator `plan_is_atomic`.
unfoldable pub create_plan : AssessmentPlan → Made AssessmentPlan
create_plan plan = do
  reject (ltb plan.question_count 1 || ltb 20 plan.question_count) ModelError.invalid_plan
  reject (ltb 20 (length plan.selected_opportunity_ids)) ModelError.invalid_plan
  reject (ltb 10 (length plan.reserve_opportunity_ids)) ModelError.invalid_plan
  reject (ltb 120 plan.estimated_total_minutes) ModelError.invalid_plan
  reject (has_duplicates plan.selected_opportunity_ids) ModelError.invalid_plan
  reject (has_duplicates plan.reserve_opportunity_ids) ModelError.invalid_plan
  reject (any (λ id. mem id plan.reserve_opportunity_ids) plan.selected_opportunity_ids)
      ModelError.invalid_plan
  reject (is_ready plan.status && not (length plan.selected_opportunity_ids == plan.question_count))
      ModelError.invalid_plan
  reject
      (not (is_ready plan.status)
        && (non_empty plan.selected_opportunity_ids || non_empty plan.reserve_opportunity_ids))
      ModelError.invalid_plan
  ok plan

abbrev message_by_status : PlanStatus → String
message_by_status PlanStatus.ready = ""
message_by_status PlanStatus.insufficient_relevant_evidence =
    "No existe evidencia pertinente suficiente para planificar la evaluación."
message_by_status PlanStatus.insufficient_distinct_question_opportunities =
    "No existen oportunidades sustancialmente distintas suficientes para el número solicitado."
message_by_status PlanStatus.evidence_mapping_uncertain =
    "El mapeo entre evidencia, dimensión y variante no alcanza la confianza requerida."
message_by_status PlanStatus.assessment_plan_infeasible =
    "Las oportunidades válidas no satisfacen conjuntamente las restricciones no relajables."

abbrev pub sorted_set : List String → List String
sorted_set ids = sort str_lt (distinct ids)

module _ {F : Type 0} where
  abbrev pub evidence_of : List (QuestionOpportunity F) → List String
  evidence_of [] = []
  evidence_of (o ∷ os) = o.evidence_ids ++ evidence_of os

  -- `sorted({…}, reverse=True)` of the primary flags.
  unfoldable pub classes_of : List (QuestionOpportunity F) → List Bool
  classes_of primary =
      (if mem true (flags primary) then true ∷ [] else [])
      ++ (if mem false (flags primary) then false ∷ [] else [])

abbrev pub evidence_of_diagnostics : List Diagnostic → List String
evidence_of_diagnostics [] = []
evidence_of_diagnostics (d ∷ ds) = d.evidence_ids ++ evidence_of_diagnostics ds

module _ {F : Type 0} (fl : Floats F) where
  -- `item in items`
  abbrev pub is_in : QuestionOpportunity F → List (QuestionOpportunity F) → Bool
  is_in o items = any (λ i. same_opportunity fl i o) items

  unfoldable pub first_compatible :
      Bool
      → List (QuestionOpportunity F)
      → List (QuestionOpportunity F)
      → Option (QuestionOpportunity F)
  first_compatible flag reserve [] = none
  first_compatible flag reserve (o ∷ os) =
      if o.student_justification_required == flag && not (is_in o reserve)
      then some o
      else first_compatible flag reserve os

  -- The loop over the justification classes.
  unfoldable pub keep_classes :
      List Bool
      → List (QuestionOpportunity F)
      → List (QuestionOpportunity F)
      → List (QuestionOpportunity F)
  unfolding first_compatible
  keep_classes [] candidates reserve = reserve
  keep_classes (flag ∷ rest) candidates reserve = elim (first_compatible flag reserve candidates) [
    | none ↦ keep_classes rest candidates reserve
    | some o ↦ keep_classes rest candidates (reserve ++ o ∷ [])
  ]

  -- `reserve.extend(item for … if item not in reserve)`, which reads the reserve as it grows.
  unfoldable pub fill :
      List (QuestionOpportunity F) → List (QuestionOpportunity F) → List (QuestionOpportunity F)
  fill [] reserve = reserve
  fill (o ∷ os) reserve = elim (is_in o reserve) [
    | true ↦ fill os reserve
    | false ↦ fill os (reserve ++ o ∷ [])
  ]

  unfoldable pub reserve_of :
      ℕ → List (QuestionOpportunity F) → List (QuestionOpportunity F) → List (QuestionOpportunity F)
  unfolding keep_classes fill
  reserve_of max_reserve primary candidates =
      if nat_beq max_reserve 0
      then []
      else take max_reserve (fill candidates (keep_classes (classes_of primary) candidates []))

  unfoldable pub reserve_candidates :
      AssessmentPlanningPolicy F
      → List (QuestionOpportunity F)
      → List (QuestionOpportunity F)
      → List (QuestionOpportunity F)
  reserve_candidates policy primary rest =
      sort
        (λ a b.
          key_lt fl (marginal_score fl policy a primary) a.opportunity_id
            (marginal_score fl policy b primary) b.opportunity_id)
        rest

module _ {F : Type 0} (fl : Floats F) (stable_id : String → List Part → String) where
  unfoldable pub complete_failure :
      PlanStatus
      → String
      → AssessmentBlueprint F
      → ℕ
      → List String
      → List (String × Detail)
      → Made AssessmentPlan
  complete_failure status submission_id blueprint question_count evidence_ids details = do
    item ←
        diagnostic (plan_text status) (message_by_status status) Severity.error
          (take 100 evidence_ids) [] false details
    create_plan (record {
      plan_id = stable_id "plan" (
          Part.text submission_id
          ∷ Part.text blueprint.blueprint_id
          ∷ Part.number blueprint.blueprint_version
          ∷ Part.text (plan_text status)
          ∷ Part.number question_count
          ∷ []);
      submission_id = submission_id;
      blueprint_id = blueprint.blueprint_id;
      blueprint_version = blueprint.blueprint_version;
      status = status;
      question_count = question_count;
      selected_opportunity_ids = [];
      reserve_opportunity_ids = [];
      estimated_total_minutes = 0;
      diagnostics = item ∷ [];
    })

  -- The statuses of a map that a plan may fail with.
  abbrev plan_status : MappingStatus → Option PlanStatus
  plan_status MappingStatus.ready = none
  plan_status MappingStatus.insufficient_relevant_evidence =
      some PlanStatus.insufficient_relevant_evidence
  plan_status MappingStatus.insufficient_distinct_question_opportunities =
      some PlanStatus.insufficient_distinct_question_opportunities
  plan_status MappingStatus.evidence_mapping_uncertain = some PlanStatus.evidence_mapping_uncertain
  plan_status MappingStatus.technical_failure = none

  unfoldable pub failure_from_mapping :
      EvidenceMapPatch F → AssessmentBlueprint F → ℕ → Made AssessmentPlan
  failure_from_mapping mapping blueprint question_count = elim (plan_status mapping.status) [
    | none ↦ err ModelError.unplannable_status
    | some status ↦
        complete_failure status mapping.submission_id blueprint question_count
          (sorted_set (evidence_of_diagnostics mapping.diagnostics))
          (("mapping_status", Detail.text (mapping_text mapping.status)) ∷ [])
  ]

  -- The plan of a selection, from `primary_indices` on.
  unfoldable pub ready_plan :
      EvidenceMapPatch F
      → AssessmentBlueprint F
      → AssessmentPlanningPolicy F
      → List (ScoredOpportunity F)
      → State F
      → Made AssessmentPlan
  ready_plan mapping blueprint policy scored state =
      let primary = items_at scored state.selected in
      let candidates = reserve_candidates fl policy primary (unselected scored state.selected) in
      let reserve = reserve_of fl policy.max_reserve_opportunities primary candidates in
      let selected_ids = map (λ o. o.opportunity_id) primary in
      let reserve_ids = map (λ o. o.opportunity_id) reserve in
      create_plan (record {
        plan_id = stable_id "plan" (
            Part.text mapping.submission_id
            ∷ Part.text blueprint.blueprint_id
            ∷ Part.number blueprint.blueprint_version
            ∷ Part.texts selected_ids
            ∷ Part.texts reserve_ids
            ∷ Part.text planner_version
            ∷ []);
        submission_id = mapping.submission_id;
        blueprint_id = blueprint.blueprint_id;
        blueprint_version = blueprint.blueprint_version;
        status = PlanStatus.ready;
        question_count = blueprint.assessment_constraints.question_count;
        selected_opportunity_ids = selected_ids;
        reserve_opportunity_ids = reserve_ids;
        estimated_total_minutes = sum_minutes primary;
        diagnostics = [];
      })

  unfoldable pub plan_candidates :
      EvidenceMapPatch F
      → AssessmentBlueprint F
      → AssessmentPlanningPolicy F
      → List (ScoredOpportunity F)
      → Made AssessmentPlan
  plan_candidates mapping blueprint policy scored =
      let constraints = blueprint.assessment_constraints in
      let required : String × Detail =
        ("required_question_count", Detail.number constraints.question_count) in
      let fail : PlanStatus → List (String × Detail) → Made AssessmentPlan = λ status details.
        complete_failure status mapping.submission_id blueprint constraints.question_count
          (sorted_set (evidence_of mapping.opportunities)) details in
      if nat_beq (length scored) 0
      then fail PlanStatus.insufficient_relevant_evidence
          (("valid_opportunity_count", Detail.number 0) ∷ required ∷ [])
      else (if ltb (length scored) constraints.question_count
          then fail PlanStatus.insufficient_distinct_question_opportunities
              (("distinct_opportunity_count", Detail.number (length scored)) ∷ required ∷ [])
          else elim (select_exact fl policy scored constraints.question_count
              constraints.target_total_minutes constraints.structured_justification_policy.mode
              beam_width) [
                | none ↦ fail PlanStatus.assessment_plan_infeasible (
                    ("valid_opportunity_count", Detail.number (length scored))
                    ∷ required
                    ∷ ("target_total_minutes", Detail.number constraints.target_total_minutes)
                    ∷ [])
                | some state ↦ ready_plan mapping blueprint policy scored state
              ])

  unfoldable pub build_assessment_plan :
      EvidenceMapPatch F → AssessmentBlueprint F → AssessmentPlanningPolicy F → Made AssessmentPlan
  unfolding failure_from_mapping plan_candidates
  build_assessment_plan mapping blueprint policy = do
    reject (mapping.submission_id == "") ModelError.missing_submission_id
    elim mapping.status [
      | MappingStatus.ready ↦
          plan_candidates mapping blueprint policy (valid_candidates fl policy mapping blueprint)
      | _ ↦ failure_from_mapping mapping blueprint blueprint.assessment_constraints.question_count
    ]
