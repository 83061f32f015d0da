-- ===== src/Tests/Planner.antt =====
-- The planner and the validators at the small activity.
use mathlib.Core.List.{Nodup-nil, Nodup-cons, not-mem-nil}
use pruebas_personalizadas.Prelude.Common.{ℕ, arith, List, true, ◌≡◌, refl, [], ◌∷◌, some, ◌⊎◌}
use pruebas_personalizadas.Prelude.Result.{Succeeds, ok, reject, ◌>>◌, ◌>>=◌}
use pruebas_personalizadas.Contracts.Planning.{PlanStatus, AssessmentPlan}
use pruebas_personalizadas.Prelude.Lists.{filter, any}
use pruebas_personalizadas.Prelude.Sets.{mem, distinct, has_duplicates}
use pruebas_personalizadas.Prelude.Sort.{sort, insert}
use pruebas_personalizadas.Planning.Scores.{
  ScoredOpportunity, sum, str_lt, sum_minutes, base_score_of, marginal_score, key_lt, state_key_lt,
}
use pruebas_personalizadas.Planning.Search.{
  State, replaceable, next_start, is_candidate, valid_candidates, items_at, fits, extensions,
  expand, search, unselected_from, pick, select_exact,
}
use pruebas_personalizadas.Planning.Build.{
  create_plan, classes_of, keep_classes, fill, reserve_of, reserve_candidates, ready_plan,
  plan_candidates, build_assessment_plan,
}
use pruebas_personalizadas.Planning.Build.Failed.{FailClosed}
use pruebas_personalizadas.Planning.Build.Total.{InBounds, build_assessment_plan-Succeeds}
use pruebas_personalizadas.Planning.Build.Ready.{Sound, build_assessment_plan-Outcome}
use pruebas_personalizadas.Contracts.Enums.{StructuredJustificationMode}
use pruebas_personalizadas.Planning.Search.Legal.{Legal}
use pruebas_personalizadas.Planning.Search.Reached.{select_exact-Legal}
use pruebas_personalizadas.Validation.Plan.{validate_assessment_plan}
use pruebas_personalizadas.Validation.Plan.Accepted.{build_assessment_plan-validates}
use pruebas_personalizadas.Tests.Data.{opportunity, scores, mapping, blueprint, policy}

abbrev plan : AssessmentPlan
plan = record {
  plan_id = "plan";
  submission_id = "sub_1";
  blueprint_id = "blu_1";
  blueprint_version = 1;
  status = PlanStatus.ready;
  question_count = 1;
  selected_opportunity_ids = "opp_1" ∷ [];
  reserve_opportunity_ids = [];
  estimated_total_minutes = 5;
  diagnostics = [];
}

build_assessment_plan_test :
    build_assessment_plan scores (λ prefix parts. prefix) mapping blueprint policy ≡ ok plan
unfolding build_assessment_plan ◌>>◌ ◌>>=◌ reject valid_candidates sort insert filter any mem
    select_exact next_start ready_plan create_plan reserve_of reserve_candidates classes_of
    sum_minutes has_duplicates distinct fill keep_classes plan_candidates base_score_of key_lt
    marginal_score state_key_lt str_lt expand extensions fits is_candidate items_at pick search
    unselected_from
build_assessment_plan_test = refl

build_assessment_plan-Outcome_example :
    Sound scores mapping blueprint policy plan ⊎ FailClosed mapping.submission_id plan
build_assessment_plan-Outcome_example =
    build_assessment_plan-Outcome scores mapping blueprint policy (λ prefix parts. prefix)
      build_assessment_plan_test

build_assessment_plan-validates_example : validate_assessment_plan plan mapping ≡ ok tt
build_assessment_plan-validates_example =
    build_assessment_plan-validates scores mapping blueprint policy (λ prefix parts. prefix)
      build_assessment_plan_test

abbrev candidates : List (ScoredOpportunity ℕ)
candidates = record { opportunity = opportunity; base_score = 23 } ∷ []

abbrev chosen : State ℕ
chosen = record { selected = 0 ∷ []; score = 23; minutes = 5 }

select_exact_test :
    select_exact scores policy candidates 1 10 StructuredJustificationMode.not_required 4
    ≡ some chosen
unfolding select_exact search expand extensions next_start items_at fits any sort insert
    marginal_score base_score_of sum filter pick
select_exact_test = refl

select_exact-Legal_example :
    Legal candidates scores policy 10 1 chosen
    × (StructuredJustificationMode.not_required ≡ StructuredJustificationMode.selected
        → replaceable candidates 1 chosen ≡ true)
select_exact-Legal_example =
    select_exact-Legal scores policy candidates 1 10 StructuredJustificationMode.not_required 4
      select_exact_test

in_bounds : InBounds mapping blueprint policy
in_bounds = record {
  once = Nodup-cons.1 (not-mem-nil, Nodup-nil);
  asked = (omega arith, omega arith);
  time = omega arith;
  reserve = omega arith;
}

build_assessment_plan-Succeeds_example :
    Succeeds (build_assessment_plan scores (λ prefix parts. prefix) mapping blueprint policy)
build_assessment_plan-Succeeds_example =
    build_assessment_plan-Succeeds scores mapping blueprint policy in_bounds
      (λ prefix parts. prefix) refl (λ e. cc)
