-- ===== src/Planning/Scores.antt =====
-- Overlap, base and marginal scores, and the sort keys of comprehension_verification/planning.py.
use Prim.Native.Nat.{Ordering}
use Prim.Native.String.{compare}
use pruebas_personalizadas.Prelude.Common.{
  ℕ, ◌+◌, String, List, [], ◌∷◌, ◌++◌, map, Bool, true, false, ◌&&◌,
}
use pruebas_personalizadas.Prelude.Tests.{if◌then◌else◌, ltb, nat_beq}
use pruebas_personalizadas.Prelude.Eq.{◌==◌, nat_eq, string_eq, bool_eq, list_eq}
use pruebas_personalizadas.Prelude.Lists.{length, filter}
use pruebas_personalizadas.Prelude.Sets.{mem, distinct}
use pruebas_personalizadas.Prelude.Floats.{Floats}
use pruebas_personalizadas.Contracts.Enums.{
  cognitive_operation_eq, anchor_structure_eq, response_format_eq, difficulty_band_eq,
}
use pruebas_personalizadas.Contracts.Blueprint.{AssessmentPlanningPolicy}
use pruebas_personalizadas.Contracts.Planning.{QuestionOpportunity}

pub record ScoredOpportunity (F : Type 0) : Type 0 where
  pub opportunity : QuestionOpportunity F
  pub base_score : F

-- `<` on two strings.
unfoldable pub str_lt : String → String → Bool
str_lt a b = elim (compare a b) [ Ordering.lt ↦ true | _ ↦ false ]

-- `<` on two tuples of strings.
unfoldable pub ids_lt : List String → List String → Bool
unfolding str_lt
ids_lt [] [] = false
ids_lt [] (b ∷ bs) = true
ids_lt (a ∷ xs) [] = false
ids_lt (a ∷ xs) (b ∷ bs) = if a == b then ids_lt xs bs else str_lt a b

-- `sum(item.target_minutes for item in items)`
unfoldable pub sum_minutes : {F : Type 0} → List (QuestionOpportunity F) → ℕ
sum_minutes [] = 0
sum_minutes (o ∷ os) = o.target_minutes + sum_minutes os

module _ {F : Type 0} (fl : Floats F) where
  unfoldable pub evidence_overlap : QuestionOpportunity F → QuestionOpportunity F → F
  evidence_overlap left right =
      let union = distinct (left.evidence_ids ++ right.evidence_ids) in
      let shared = filter (λ id. mem id right.evidence_ids) (distinct left.evidence_ids) in
      if nat_beq (length union) 0
      then fl.of_int 0
      else fl.div (fl.of_int (length shared)) (fl.of_int (length union))

  -- `sum(values)`
  unfoldable pub sum : F → List F → F
  sum total [] = total
  sum total (x ∷ xs) = sum (fl.add total x) xs

  -- `==` on opportunities
  unfoldable pub same_opportunity : QuestionOpportunity F → QuestionOpportunity F → Bool
  same_opportunity a b =
      a.opportunity_id == b.opportunity_id
      && a.opportunity_template_id == b.opportunity_template_id
      && a.submission_id == b.submission_id
      && a.dimension_id == b.dimension_id
      && a.variant_id == b.variant_id
      && a.evidence_ids == b.evidence_ids
      && a.cognitive_operation == b.cognitive_operation
      && a.focus == b.focus
      && a.observable == b.observable
      && a.difficulty == b.difficulty
      && a.target_minutes == b.target_minutes
      && a.allowed_anchor_structures == b.allowed_anchor_structures
      && a.allowed_response_formats == b.allowed_response_formats
      && fl.same a.activity_priority b.activity_priority
      && fl.same a.evidence_fit b.evidence_fit
      && fl.same a.opportunity_quality b.opportunity_quality
      && a.student_justification_required == b.student_justification_required

  module _ (policy : AssessmentPlanningPolicy F) where
    unfoldable pub base_score_of : QuestionOpportunity F → F
    base_score_of o =
        fl.add
          (fl.add (fl.mul o.activity_priority policy.activity_priority_weight)
            (fl.mul o.evidence_fit policy.evidence_fit_weight))
          (fl.mul o.opportunity_quality policy.opportunity_quality_weight)

    unfoldable pub marginal_score : QuestionOpportunity F → List (QuestionOpportunity F) → F
    unfolding base_score_of evidence_overlap sum
    marginal_score o chosen =
        let dimension_penalty =
          fl.mul policy.repeated_dimension_penalty
            (fl.of_int (length (filter (λ item. item.dimension_id == o.dimension_id) chosen))) in
        let variant_penalty =
          fl.mul policy.repeated_variant_penalty
            (fl.of_int (length (filter (λ item. item.variant_id == o.variant_id) chosen))) in
        let overlap_penalty =
          fl.mul policy.evidence_overlap_penalty
            (sum (fl.of_int 0) (map (λ item. evidence_overlap item o) chosen)) in
        fl.sub (fl.sub (fl.sub (base_score_of o) dimension_penalty) variant_penalty) overlap_penalty

  -- The keys `(-score, opportunity_id)` in order.
  unfoldable pub key_lt : F → String → F → String → Bool
  unfolding str_lt
  key_lt score id score' id' =
      if fl.same (fl.neg score) (fl.neg score')
      then str_lt id id'
      else fl.lt (fl.neg score) (fl.neg score')

  -- The keys `(-score, minutes, ids)` in order.
  unfoldable pub state_key_lt : F → ℕ → List String → F → ℕ → List String → Bool
  unfolding ids_lt
  state_key_lt score minutes ids score' minutes' ids' =
      if fl.same (fl.neg score) (fl.neg score')
      then (if nat_beq minutes minutes' then ids_lt ids ids' else ltb minutes minutes')
      else fl.lt (fl.neg score) (fl.neg score')
