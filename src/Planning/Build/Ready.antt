-- ===== src/Planning/Build/Ready.antt =====
-- What a built plan promises: a READY plan is sound, and any other fails closed.
use pruebas_personalizadas.Prelude.Common.{
  ℕ, ◌≤◌, ◌≡◌, refl, sym, subst, String, Option, List, map, Bool, true, false, ◌⊎◌, inl, inr, Memᴰ,
  arith,
}
use pruebas_personalizadas.Prelude.Tests.{if◌then◌else◌, ltb, nat_beq, Bool-cases, Option-cases}
use pruebas_personalizadas.Prelude.Eq.{nat_eq, string_eq, bool_eq}
use pruebas_personalizadas.Prelude.Lists.{length, map-mem}
use pruebas_personalizadas.Prelude.Sets.{mem-true}
use pruebas_personalizadas.Prelude.Sort.{mem-sort}
use pruebas_personalizadas.Prelude.Result.{ok, reject->>-eq-ok}
use pruebas_personalizadas.Prelude.Floats.{Floats}
use pruebas_personalizadas.Contracts.Enums.{StructuredJustificationMode}
use pruebas_personalizadas.Contracts.Blueprint.{AssessmentPlanningPolicy, AssessmentBlueprint}
use pruebas_personalizadas.Contracts.Planning.{
  QuestionOpportunity, EvidenceMapPatch, MappingStatus, AssessmentPlan,
}
use pruebas_personalizadas.Planning.Scores.{ScoredOpportunity, sum_minutes}
use pruebas_personalizadas.Planning.Search.{
  State, items_at, is_candidate, valid_candidates, unselected, flags, replaceable, select_exact,
}
use pruebas_personalizadas.Planning.Search.Legal.{Apart, Legal}
use pruebas_personalizadas.Planning.Search.Reached.{select_exact-Legal}
use pruebas_personalizadas.Planning.Build.{
  Part, beam_width, is_ready, reserve_candidates, reserve_of, ready_plan, plan_candidates,
  failure_from_mapping, build_assessment_plan,
}
use pruebas_personalizadas.Planning.Build.Created.{Atomic, create_plan-Atomic}
use pruebas_personalizadas.Planning.Build.Failed.{
  FailClosed, complete_failure-FailClosed, failure_from_mapping-FailClosed,
}
use pruebas_personalizadas.Planning.Build.Reserved.{
  mem-items_at, get_elem?-mem, mem-unselected_from, mem-valid_candidates, mem-reserve_of,
  length-reserve_of,
}

if-true : (b c : Bool) → (if b then c else false) ≡ true → b ≡ true
if-true true c h = refl
if-true false c h = cc

module _ {F : Type 0} (fl : Floats F) (mapping : EvidenceMapPatch F)
    (blueprint : AssessmentBlueprint F) (policy : AssessmentPlanningPolicy F) where
  -- An opportunity of the map that reaches the policy's floors and allows a response format.
  abbrev pub IsEligible : QuestionOpportunity F → Type 0
  IsEligible o = Memᴰ o mapping.opportunities × (is_candidate fl policy blueprint o ≡ true)

  -- A plan that lists `primary` and `reserve`, chosen from the map within every limit.
  pub record Sound (plan : AssessmentPlan) : Type 0 where
    pub ready : is_ready plan.status ≡ true
    pub owner : plan.submission_id ≡ mapping.submission_id
    pub primary : List (QuestionOpportunity F)
    pub reserve : List (QuestionOpportunity F)
    pub primary_ids : plan.selected_opportunity_ids ≡ map (λ o. o.opportunity_id) primary
    pub reserve_ids : plan.reserve_opportunity_ids ≡ map (λ o. o.opportunity_id) reserve
    pub exact :
        length plan.selected_opportunity_ids ≡ blueprint.assessment_constraints.question_count
    pub eligible : (o : QuestionOpportunity F) → Memᴰ o primary ⊎ Memᴰ o reserve → IsEligible o
    pub counted : plan.estimated_total_minutes ≡ sum_minutes primary
    pub in_time :
        plan.estimated_total_minutes ≤ blueprint.assessment_constraints.target_total_minutes
    pub apart : Apart fl policy primary
    pub justified :
        blueprint.assessment_constraints.structured_justification_policy.mode
          ≡ StructuredJustificationMode.selected
        → (o : QuestionOpportunity F) × Memᴰ o primary × (o.student_justification_required ≡ true)
    pub capped : length reserve ≤ policy.max_reserve_opportunities
    pub atomic : Atomic plan

  module _ (scored : List (ScoredOpportunity F)) where
    abbrev AllEligible : Type 0
    AllEligible = (s : ScoredOpportunity F) → Memᴰ s scored → IsEligible s.opportunity

    primary-IsEligible :
        AllEligible
        → (is : List ℕ) (o : QuestionOpportunity F) → Memᴰ o (items_at scored is)
        → IsEligible o
    primary-IsEligible all is o m =
        let (i, s, n, found, e) = mem-items_at scored is m in
        subst IsEligible e (all s (get_elem?-mem scored i found))

    reserve-IsEligible :
        AllEligible
        → (is : List ℕ) (primary : List (QuestionOpportunity F)) (o : QuestionOpportunity F)
        → Memᴰ o (
            reserve_of fl policy.max_reserve_opportunities primary
              (reserve_candidates fl policy primary (unselected scored is)))
        → IsEligible o
    unfolding reserve_candidates
    reserve-IsEligible all is primary o m =
        let (i, s, found, e, out) =
          mem-unselected_from scored is 0 scored
            (mem-sort _ _ (mem-reserve_of fl _ primary _ o m)) in
        subst IsEligible e (all s (get_elem?-mem scored i found))

    -- The state kept under SELECTED has a question that asks for a justification.
    replaceable-justified :
        (max_reserve : ℕ) (state : State F)
        → replaceable scored max_reserve state ≡ true
        → (o : QuestionOpportunity F) × Memᴰ o (items_at scored state.selected)
          × (o.student_justification_required ≡ true)
    unfolding replaceable
    replaceable-justified max_reserve state h =
        let (o, m, e) =
          map-mem _ (items_at scored state.selected)
            (mem-true true (flags (items_at scored state.selected)) (if-true _ _ h)) in
        (o, m, sym e)

    module _ (stable_id : String → List Part → String) where
      ready_plan-Sound :
          (state : State F) {plan : AssessmentPlan}
          → AllEligible
          → Legal scored fl policy blueprint.assessment_constraints.target_total_minutes
              blueprint.assessment_constraints.question_count state
          → (blueprint.assessment_constraints.structured_justification_policy.mode
                ≡ StructuredJustificationMode.selected
              → replaceable scored policy.max_reserve_opportunities state ≡ true)
          → ready_plan fl stable_id mapping blueprint policy scored state ≡ ok plan
          → Sound plan
      unfolding ready_plan
      ready_plan-Sound state all legal test h =
          let (same, atomic) = create_plan-Atomic _ h in
          subst Sound same (record {
            ready = refl;
            owner = refl;
            primary = items_at scored state.selected;
            reserve = _;
            primary_ids = refl;
            reserve_ids = refl;
            exact = atomic.complete refl;
            eligible = λ o m. elim m [
              | inl n ↦ primary-IsEligible all state.selected o n
              | inr n ↦ reserve-IsEligible all state.selected _ o n
            ];
            counted = refl;
            in_time = omega (arith, legal.counted, legal.bounded);
            apart = legal.apart;
            justified = λ e. replaceable-justified _ state (test e);
            capped = length-reserve_of fl _ _ _;
            atomic = atomic;
          })

      plan_candidates-Outcome :
          {plan : AssessmentPlan}
          → AllEligible
          → plan_candidates fl stable_id mapping blueprint policy scored ≡ ok plan
          → Sound plan ⊎ FailClosed mapping.submission_id plan
      unfolding plan_candidates
      plan_candidates-Outcome {plan} all h = elim (Bool-cases (nat_beq (length scored) 0)) [
        | inl t ↦
            inr (complete_failure-FailClosed _ _ _ _ _ _ _ _ refl (rw (t, plan_candidates) at h))
        | inr f ↦
            elim (Bool-cases
              (ltb (length scored) blueprint.assessment_constraints.question_count)) [
                | inl t ↦ inr (
                    complete_failure-FailClosed _ _ _ _ _ _ _ _ refl
                      (rw (f, t, plan_candidates) at h))
                | inr g ↦ elim (Option-cases chosen) [
                  | inl lost ↦ inr (
                      complete_failure-FailClosed _ _ _ _ _ _ _ _ refl
                        (rw (f, g, lost, plan_candidates) at h))
                  | inr (state, found) ↦
                      let (legal, test) = select_exact-Legal fl policy scored _ _ _ _ found in
                      inl (
                        ready_plan-Sound state all legal test
                          (rw (f, g, found, plan_candidates) at h))
                ]
              ]
      ]
        where
          chosen : Option (State F)
          chosen =
              select_exact fl policy scored blueprint.assessment_constraints.question_count
                blueprint.assessment_constraints.target_total_minutes
                blueprint.assessment_constraints.structured_justification_policy.mode beam_width

  module _ (stable_id : String → List Part → String) where
    -- A plan that `build_assessment_plan` returns is either READY and sound (exactly the asked number
    -- of distinct opportunities of the map, each over the policy's floors, whose minutes add up to the
    -- estimate and fit the target, whose evidence is kept apart, with one that asks for a justification
    -- under SELECTED, and with a disjoint reserve within the policy's maximum), or it fails closed: no
    -- opportunity, no minutes, and complete diagnostics.
    pub build_assessment_plan-Outcome :
        {plan : AssessmentPlan}
        → build_assessment_plan fl stable_id mapping blueprint policy ≡ ok plan
        → Sound plan ⊎ FailClosed mapping.submission_id plan
    unfolding build_assessment_plan
    build_assessment_plan-Outcome {plan} h = go mapping.status refl (reject->>-eq-ok _ _ _ h).1
      where
        scored : List (ScoredOpportunity F)
        scored = valid_candidates fl policy mapping blueprint

        Planned : MappingStatus → Type 0
        Planned status =
            elim status [
              | MappingStatus.ready ↦ plan_candidates fl stable_id mapping blueprint policy scored
              | _ ↦
                  failure_from_mapping fl stable_id mapping blueprint
                    blueprint.assessment_constraints.question_count
            ]
            ≡ ok plan

        closed :
            failure_from_mapping fl stable_id mapping blueprint
                blueprint.assessment_constraints.question_count
              ≡ ok plan
            → Sound plan ⊎ FailClosed mapping.submission_id plan
        closed k = inr (failure_from_mapping-FailClosed fl stable_id mapping blueprint _ k)

        go :
            (status : MappingStatus)
            → mapping.status ≡ status
            → Planned status
            → Sound plan ⊎ FailClosed mapping.submission_id plan
        go MappingStatus.ready e k =
            plan_candidates-Outcome scored stable_id
              (λ s m. mem-valid_candidates fl policy mapping blueprint m) k
        go MappingStatus.insufficient_relevant_evidence e k = closed k
        go MappingStatus.insufficient_distinct_question_opportunities e k = closed k
        go MappingStatus.evidence_mapping_uncertain e k = closed k
        go MappingStatus.technical_failure e k = closed k
