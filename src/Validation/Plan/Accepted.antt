-- ===== src/Validation/Plan/Accepted.antt =====
-- Every plan that the planner builds passes the validator.
use mathlib.Core.List.{Nodup, Nodup-cons}
use mathlib.Core.Logic.{∥∥₁_elim}
use mathlib.Core.HLevel.{⊥_prop}
use pruebas_personalizadas.Prelude.Common.{
  String, ◌≡◌, refl, sym, subst, List, [], ◌∷◌, ◌++◌, map, true, false, inl, inr, Memᴰ,
}
use pruebas_personalizadas.Prelude.Eq.{nat_eq, string_eq, not-ne_of_eq}
use pruebas_personalizadas.Prelude.Result.{ok, reject, ◌>>◌}
use pruebas_personalizadas.Prelude.Lists.{length, mem-append, map-mem, mem-map}
use pruebas_personalizadas.Prelude.Sets.{IsSubset, subset-eq-true, has_duplicates-eq-false}
use pruebas_personalizadas.Prelude.Floats.{Floats}
use pruebas_personalizadas.Contracts.Blueprint.{AssessmentPlanningPolicy, AssessmentBlueprint}
use pruebas_personalizadas.Contracts.Planning.{
  QuestionOpportunity, EvidenceMapPatch, PlanStatus, AssessmentPlan, plan_text,
}
use pruebas_personalizadas.Validation.Error.{require_unique}
use pruebas_personalizadas.Validation.Context.{validate_complete_diagnostics}
use pruebas_personalizadas.Validation.Plan.{planned_ids, validate_assessment_plan}
use pruebas_personalizadas.Planning.Build.{Part, is_ready, build_assessment_plan}
use pruebas_personalizadas.Planning.Build.Ready.{IsEligible, Sound, build_assessment_plan-Outcome}

Nodup-append :
    (xs ys : List String)
    → Nodup xs
    → Nodup ys
    → ((a : String) → Memᴰ a xs → ¬ Memᴰ a ys)
    → Nodup (xs ++ ys)
Nodup-append [] ys once other apart = other
Nodup-append (x ∷ xs) ys once other apart =
    let (out, rest) = Nodup-cons.0 once in
    Nodup-cons.1 (
      λ m. ∥∥₁_elim m ⊥_prop λ k. elim (mem-append xs ys k) [
        | inl n ↦ out ∣ n ∣₁
        | inr n ↦ apart x (Memᴰ.head refl) n
      ],
      Nodup-append xs ys rest other (λ a m. apart a (Memᴰ.tail m)),
    )

-- What the validator asks of a plan, by the plan's status.
accepted_ready :
    {F : Type 0} (plan : AssessmentPlan) (mapping : EvidenceMapPatch F)
    → is_ready plan.status ≡ true
    → plan.submission_id ≡ mapping.submission_id
    → length plan.selected_opportunity_ids ≡ plan.question_count
    → IsSubset (planned_ids plan) (map (λ o. o.opportunity_id) mapping.opportunities)
    → Nodup (planned_ids plan)
    → validate_assessment_plan plan mapping ≡ ok tt
unfolding validate_assessment_plan reject ◌>>◌ require_unique
accepted_ready plan mapping ready same exact known once = go plan.status refl ready
  where
    go :
        (status : PlanStatus)
        → plan.status ≡ status
        → is_ready status ≡ true
        → validate_assessment_plan plan mapping ≡ ok tt
    go PlanStatus.ready e t = rw (
      not-ne_of_eq plan.submission_id mapping.submission_id same,
      e,
      not-ne_of_eq (length plan.selected_opportunity_ids) plan.question_count exact,
      subset-eq-true (planned_ids plan) _ known,
      has_duplicates-eq-false (planned_ids plan) once,
    )
    go PlanStatus.insufficient_relevant_evidence e t = cc
    go PlanStatus.insufficient_distinct_question_opportunities e t = cc
    go PlanStatus.evidence_mapping_uncertain e t = cc
    go PlanStatus.assessment_plan_infeasible e t = cc

accepted_failed :
    {F : Type 0} (plan : AssessmentPlan) (mapping : EvidenceMapPatch F)
    → is_ready plan.status ≡ false
    → plan.submission_id ≡ mapping.submission_id
    → plan.selected_opportunity_ids ≡ []
    → plan.reserve_opportunity_ids ≡ []
    → validate_complete_diagnostics plan.diagnostics (plan_text plan.status) true ≡ ok tt
    → validate_assessment_plan plan mapping ≡ ok tt
unfolding validate_assessment_plan reject ◌>>◌
accepted_failed plan mapping failed same none_primary none_reserve explained =
    go plan.status refl failed
  where
    go :
        (status : PlanStatus)
        → plan.status ≡ status
        → is_ready status ≡ false
        → validate_assessment_plan plan mapping ≡ ok tt
    go PlanStatus.ready e f = cc
    go PlanStatus.insufficient_relevant_evidence e f =
        rw
          (
            not-ne_of_eq plan.submission_id mapping.submission_id same,
            e,
            none_primary,
            none_reserve,
          )
          (rw e at explained)
    go PlanStatus.insufficient_distinct_question_opportunities e f =
        rw
          (
            not-ne_of_eq plan.submission_id mapping.submission_id same,
            e,
            none_primary,
            none_reserve,
          )
          (rw e at explained)
    go PlanStatus.evidence_mapping_uncertain e f =
        rw
          (
            not-ne_of_eq plan.submission_id mapping.submission_id same,
            e,
            none_primary,
            none_reserve,
          )
          (rw e at explained)
    go PlanStatus.assessment_plan_infeasible e f =
        rw
          (
            not-ne_of_eq plan.submission_id mapping.submission_id same,
            e,
            none_primary,
            none_reserve,
          )
          (rw e at explained)

module _ {F : Type 0} (fl : Floats F) (mapping : EvidenceMapPatch F)
    (blueprint : AssessmentBlueprint F) (policy : AssessmentPlanningPolicy F) where
  known_of :
      (items : List (QuestionOpportunity F))
      → ((o : QuestionOpportunity F) → Memᴰ o items → IsEligible fl mapping blueprint policy o)
      → {id : String} → Memᴰ id (map (λ o. o.opportunity_id) items)
      → Memᴰ id (map (λ o. o.opportunity_id) mapping.opportunities)
  known_of items all {id} m =
      let (o, k, e) = map-mem (λ (o : QuestionOpportunity F). o.opportunity_id) items m in
      subst (λ i. Memᴰ i (map (λ o. o.opportunity_id) mapping.opportunities)) (sym e)
        (mem-map (λ o. o.opportunity_id) mapping.opportunities (all o k).0)

  planned-known :
      {plan : AssessmentPlan}
      → Sound fl mapping blueprint policy plan
      → IsSubset (planned_ids plan) (map (λ o. o.opportunity_id) mapping.opportunities)
  planned-known {plan} s id m = elim (mem-append _ _ m) [
    | inl k ↦ known_of s.primary (λ o n. s.eligible o (inl n)) (subst (Memᴰ id) s.primary_ids k)
    | inr k ↦ known_of s.reserve (λ o n. s.eligible o (inr n)) (subst (Memᴰ id) s.reserve_ids k)
  ]

  -- A plan that the planner builds is accepted by the validator of plans, whatever its status.
  pub build_assessment_plan-validates :
      (stable_id : String → List Part → String) {plan : AssessmentPlan}
      → build_assessment_plan fl stable_id mapping blueprint policy ≡ ok plan
      → validate_assessment_plan plan mapping ≡ ok tt
  build_assessment_plan-validates stable_id {plan} h =
      elim (build_assessment_plan-Outcome fl mapping blueprint policy stable_id h) [
        | inl s ↦
            accepted_ready plan mapping s.ready s.owner (s.atomic.complete s.ready)
              (planned-known s)
              (Nodup-append _ _ s.atomic.selected_once s.atomic.reserve_once s.atomic.disjoint)
        | inr f ↦
            accepted_failed plan mapping f.failed f.owner f.no_primary f.no_reserve f.explained
      ]
