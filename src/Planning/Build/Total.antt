-- ===== src/Planning/Build/Total.antt =====
-- The planner returns a plan on every map and blueprint that keep their contracts.
use mathlib.Core.List.{Nodup}
use mathlib.Core.List.Perm
use pruebas_personalizadas.Prelude.Common.{
  ℕ, ◌+◌, ◌≤◌, ◌≡◌, ◌≢◌, refl, sym, ap, subst, ◌∙◌, String, Option, some, List, [], ◌∷◌, map, true,
  false, inl, inr, Memᴰ, arith,
}
use pruebas_personalizadas.Prelude.Tests.{ltb, nat_beq, Bool-cases, Option-cases, some-injective}
use pruebas_personalizadas.Prelude.Eq.{◌==◌, string_eq, nat_eq}
use pruebas_personalizadas.Prelude.Result.{reject, ◌>>◌, ◌>>=◌, Succeeds, reject-Succeeds}
use pruebas_personalizadas.Prelude.Lists.{length, get_elem?, filter, any, length-map, map-mem}
use pruebas_personalizadas.Prelude.Sets.{mem, mem-eq-true}
use pruebas_personalizadas.Prelude.Sort.{sort-perm, mem-sort}
use pruebas_personalizadas.Prelude.Floats.{Floats}
use pruebas_personalizadas.Contracts.Blueprint.{AssessmentPlanningPolicy, AssessmentBlueprint}
use pruebas_personalizadas.Contracts.Planning.{QuestionOpportunity, EvidenceMapPatch, MappingStatus}
use pruebas_personalizadas.Diagnostics.{safe_details, is_sensitive, lowers_to}
use pruebas_personalizadas.Planning.Scores.{ScoredOpportunity, base_score_of}
use pruebas_personalizadas.Planning.Search.{
  State, items_at, is_candidate, scored_lt, valid_candidates, unselected, select_exact,
}
use pruebas_personalizadas.Planning.Search.Legal.{Legal}
use pruebas_personalizadas.Planning.Search.Reached.{select_exact-Legal}
use pruebas_personalizadas.Planning.Build.{
  Part, beam_width, reserve_candidates, reserve_of, ready_plan, plan_candidates,
  failure_from_mapping, build_assessment_plan,
}
use pruebas_personalizadas.Planning.Build.Created.{Atomic-create_plan}
use pruebas_personalizadas.Planning.Build.Refused.{complete_failure-some, failure_from_mapping-some}
use pruebas_personalizadas.Planning.Build.Reserved.{
  mem-items_at, mem-unselected_from, mem-reserve_of, length-reserve_of,
}
use pruebas_personalizadas.Planning.Build.Distinct.{
  id_of, scored_id, Nodup-map-filter, same_index, length-items_at, Nodup-items_at,
}
use pruebas_personalizadas.Planning.Build.Kept.{reserve_of-once}

map-map :
    {A B C : Type 0} (f : A → B) (g : B → C) (h : A → C) (xs : List A)
    → ((x : A) → g (f x) ≡ h x)
    → map g (map f xs) ≡ map h xs
map-map f g h [] e = refl
map-map f g h (x ∷ xs) e = cc (e x, map-map f g h xs e)

-- What the contracts bound.
pub record InBounds {F : Type 0} (mapping : EvidenceMapPatch F) (blueprint : AssessmentBlueprint F)
    (policy : AssessmentPlanningPolicy F) : Type 0 where
  pub once : Nodup (map id_of mapping.opportunities)
  pub asked :
      (1 ≤ blueprint.assessment_constraints.question_count)
      × (blueprint.assessment_constraints.question_count ≤ 20)
  pub time : blueprint.assessment_constraints.target_total_minutes ≤ 120
  pub reserve : policy.max_reserve_opportunities ≤ 10

module _ {F : Type 0} (fl : Floats F) (mapping : EvidenceMapPatch F)
    (blueprint : AssessmentBlueprint F) (policy : AssessmentPlanningPolicy F)
    (bounds : InBounds mapping blueprint policy) where
  scored-once : Nodup (map scored_id (valid_candidates fl policy mapping blueprint))
  unfolding valid_candidates
  scored-once = (Perm.Nodup-iff (Perm.map scored_id (sort-perm (scored_lt fl policy) _))).1 (
      subst Nodup
        (sym (
          map-map (λ o. record { opportunity = o; base_score = base_score_of fl policy o })
            scored_id id_of (filter (is_candidate fl policy blueprint) mapping.opportunities)
            (λ o. refl)))
        (Nodup-map-filter id_of _ mapping.opportunities bounds.once))

  module _ (scored : List (ScoredOpportunity F)) (once : Nodup (map scored_id scored))
      (state : State F)
      (legal : Legal scored fl policy blueprint.assessment_constraints.target_total_minutes
        blueprint.assessment_constraints.question_count state) where
    abbrev pool : List (QuestionOpportunity F)
    pool =
        reserve_candidates fl policy (items_at scored state.selected)
          (unselected scored state.selected)

    -- Where an opportunity of the pool stands.
    pool-index :
        (o : QuestionOpportunity F)
        → Memᴰ o pool
        → (i : ℕ) × (s : ScoredOpportunity F) × (get_elem? scored i ≡ some s)
          × (s.opportunity ≡ o)
          × (mem (i + 0) state.selected ≡ false)
    unfolding reserve_candidates
    pool-index o m = mem-unselected_from scored state.selected 0 scored (mem-sort _ _ m)

    pool-one : (a b : QuestionOpportunity F) → Memᴰ a pool → Memᴰ b pool → id_of a ≡ id_of b → a ≡ b
    pool-one a b m n e =
        let (i, s, at_i, sa, _) = pool-index a m in
        let (j, t, at_j, tb, _) = pool-index b n in
        let ij : i ≡ j =
          same_index scored_id scored i j once at_i at_j (ap id_of sa ∙ e ∙ ap id_of (sym tb)) in
        let st : s ≡ t = some-injective (sym at_i ∙ ap (get_elem? scored) ij ∙ at_j) in
        sym sa ∙ ap (λ x. x.opportunity) st ∙ tb

    apart-ids :
        (max_reserve : ℕ) (id : String)
        → Memᴰ id (map id_of (items_at scored state.selected))
        → ¬ Memᴰ id (map id_of (reserve_of fl max_reserve (items_at scored state.selected) pool))
    apart-ids max_reserve id m n =
        let (o, om, oe) = map-mem id_of (items_at scored state.selected) m in
        let (r, rm, re) = map-mem id_of (reserve_of fl max_reserve _ pool) n in
        let (i, s, im, at_i, so) = mem-items_at scored state.selected om in
        let (j, t, at_j, tr, out) =
          pool-index r (mem-reserve_of fl max_reserve (items_at scored state.selected) pool r rm) in
        let ij : i ≡ j =
          same_index scored_id scored i j once at_i at_j
            (ap id_of so ∙ sym oe ∙ re ∙ ap id_of (sym tr)) in
        let same : i ≡ j + 0 = omega (arith, ij) in
        cc (out, subst (λ k. mem k state.selected ≡ true) same (mem-eq-true state.selected im))

    ready_plan-Succeeds :
        (stable_id : String → List Part → String)
        → Succeeds (ready_plan fl stable_id mapping blueprint policy scored state)
    unfolding ready_plan
    ready_plan-Succeeds stable_id =
        let sized =
          length-map id_of (items_at scored state.selected)
          ∙ length-items_at scored once state.selected legal.in_range
          ∙ legal.count in
        let spare =
          length-reserve_of fl policy.max_reserve_opportunities (items_at scored state.selected)
            pool in
        (
          _,
          Atomic-create_plan _ (record {
            asked = bounds.asked;
            selected_bounded = omega (arith, sized, bounds.asked);
            reserve_bounded = omega (
              arith,
              length-map id_of (
                  reserve_of fl policy.max_reserve_opportunities (items_at scored state.selected)
                    pool),
              spare,
              bounds.reserve,
            );
            minutes_bounded = omega (arith, legal.counted, legal.bounded, bounds.time);
            selected_once = Nodup-items_at scored once state.selected legal.once legal.in_range;
            reserve_once =
                reserve_of-once fl pool pool-one policy.max_reserve_opportunities
                  (items_at scored state.selected);
            disjoint = apart-ids policy.max_reserve_opportunities;
            complete = λ _. sized;
            nothing = λ f. cc;
          }),
        )

  module _ (stable_id : String → List Part → String) where
    plan_candidates-Succeeds :
        (scored : List (ScoredOpportunity F))
        → Nodup (map scored_id scored)
        → Succeeds (plan_candidates fl stable_id mapping blueprint policy scored)
    unfolding plan_candidates safe_details is_sensitive lowers_to any ◌>>=◌ ◌>>◌ reject
    plan_candidates-Succeeds scored once = elim (Bool-cases (nat_beq (length scored) 0)) [
      | inl t ↦
          rw (t, plan_candidates)
            (complete_failure-some fl stable_id _ _ blueprint _ _ _ refl bounds.asked.0
              bounds.asked.1 refl)
      | inr f ↦
          elim (Bool-cases (ltb (length scored) blueprint.assessment_constraints.question_count)) [
            | inl t ↦
                rw (f, t, plan_candidates)
                  (complete_failure-some fl stable_id _ _ blueprint _ _ _ refl bounds.asked.0
                    bounds.asked.1 refl)
            | inr g ↦ elim (Option-cases chosen) [
              | inl lost ↦
                  rw (f, g, lost, plan_candidates)
                    (complete_failure-some fl stable_id _ _ blueprint _ _ _ refl bounds.asked.0
                      bounds.asked.1 refl)
              | inr (state, found) ↦
                  rw (f, g, found, plan_candidates)
                    (ready_plan-Succeeds scored once state
                      (select_exact-Legal fl policy scored _ _ _ _ found).0 stable_id)
            ]
          ]
    ]
      where
        chosen : Option (State F)
        chosen =
            select_exact fl policy scored blueprint.assessment_constraints.question_count
              blueprint.assessment_constraints.target_total_minutes
              blueprint.assessment_constraints.structured_justification_policy.mode beam_width

    -- On a map with a submission and without a technical failure, whose opportunities have distinct
    -- identifiers, and within the bounds of the contracts (1 to 20 questions, at most 120 minutes and
    -- at most 10 reserves), the planner returns a plan.
    pub build_assessment_plan-Succeeds :
        (mapping.submission_id == "") ≡ false
        → mapping.status ≢ MappingStatus.technical_failure
        → Succeeds (build_assessment_plan fl stable_id mapping blueprint policy)
    unfolding build_assessment_plan
    build_assessment_plan-Succeeds named known =
        reject-Succeeds _ _ _ named (go mapping.status refl)
      where
        Returns : MappingStatus → Type 0
        Returns status = Succeeds (elim status [
          | MappingStatus.ready ↦
              plan_candidates fl stable_id mapping blueprint policy
                (valid_candidates fl policy mapping blueprint)
          | _ ↦
              failure_from_mapping fl stable_id mapping blueprint
                blueprint.assessment_constraints.question_count
        ])

        failed :
            (status : MappingStatus)
            → mapping.status ≡ status
            → status ≢ MappingStatus.ready
            → Succeeds (
                failure_from_mapping fl stable_id mapping blueprint
                  blueprint.assessment_constraints.question_count)
        failed status e n =
            failure_from_mapping-some fl stable_id mapping blueprint _ (λ r. n (sym e ∙ r)) known
              bounds.asked.0 bounds.asked.1

        go : (status : MappingStatus) → mapping.status ≡ status → Returns status
        go MappingStatus.ready e =
            plan_candidates-Succeeds (valid_candidates fl policy mapping blueprint) scored-once
        go MappingStatus.insufficient_relevant_evidence e = failed _ e (λ r. cc)
        go MappingStatus.insufficient_distinct_question_opportunities e = failed _ e (λ r. cc)
        go MappingStatus.evidence_mapping_uncertain e = failed _ e (λ r. cc)
        go MappingStatus.technical_failure e = absurd (known e)
