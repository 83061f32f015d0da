-- ===== src/Planning/Build/Created.antt =====
-- What making an assessment plan or a diagnostic checks.
use mathlib.Core.List.{Nodup}
use pruebas_personalizadas.Prelude.Common.{
  ℕ, ◌≤◌, ◌≡◌, refl, ap, sym, inl, inr, String, List, [], Bool, true, false, not, ◌&&◌, ◌||◌, Memᴰ,
  arith,
}
use pruebas_personalizadas.Prelude.Tests.{
  ltb, ltb-eq-false, Bool-cases, ltb-false, or-false, not-false,
}
use pruebas_personalizadas.Prelude.Eq.{◌==◌, nat_eq, string_eq, not-ne_of_eq}
use pruebas_personalizadas.Prelude.Lists.{length, any-false, any-eq-false}
use pruebas_personalizadas.Prelude.Sets.{
  mem, mem-true, mem-false, has_duplicates-false, has_duplicates-eq-false,
}
use pruebas_personalizadas.Prelude.Result.{
  ok, reject, ◌>>◌, reject->>-eq-ok, >>=-eq-ok, ok-injective,
}
use pruebas_personalizadas.Contracts.Enums.{Severity}
use pruebas_personalizadas.Contracts.Evidence.{Detail, Diagnostic}
use pruebas_personalizadas.Contracts.Planning.{AssessmentPlan}
use pruebas_personalizadas.Validation.Context.{non_empty, non_empty-false}
use pruebas_personalizadas.Diagnostics.{diagnostic, create_diagnostic, safe_details}
use pruebas_personalizadas.Planning.Build.{create_plan, is_ready}

-- The contract of a plan: its bounds, unique and disjoint opportunities, and all or none of them.
pub record Atomic (plan : AssessmentPlan) : Type 0 where
  pub asked : (1 ≤ plan.question_count) × (plan.question_count ≤ 20)
  pub selected_bounded : length plan.selected_opportunity_ids ≤ 20
  pub reserve_bounded : length plan.reserve_opportunity_ids ≤ 10
  pub minutes_bounded : plan.estimated_total_minutes ≤ 120
  pub selected_once : Nodup plan.selected_opportunity_ids
  pub reserve_once : Nodup plan.reserve_opportunity_ids
  pub disjoint :
      (id : String) → Memᴰ id plan.selected_opportunity_ids → ¬ Memᴰ id plan.reserve_opportunity_ids
  pub complete :
      is_ready plan.status ≡ true → length plan.selected_opportunity_ids ≡ plan.question_count
  pub nothing :
      is_ready plan.status ≡ false
      → (plan.selected_opportunity_ids ≡ []) × (plan.reserve_opportunity_ids ≡ [])

guarded : {b c : Bool} → (b && c) ≡ false → b ≡ true → c ≡ false
guarded {b} {c} h t = ground arith

guarded_not : {b c : Bool} → (not b && c) ≡ false → b ≡ false → c ≡ false
guarded_not {b} {c} h t = ground arith

pub create_plan-Atomic :
    (plan : AssessmentPlan) {made : AssessmentPlan}
    → create_plan plan ≡ ok made
    → (plan ≡ made) × Atomic plan
unfolding create_plan
create_plan-Atomic plan h =
    let (asked, h1) = reject->>-eq-ok _ _ _ h in
    let (selected, h2) = reject->>-eq-ok _ _ _ h1 in
    let (reserve, h3) = reject->>-eq-ok _ _ _ h2 in
    let (minutes, h4) = reject->>-eq-ok _ _ _ h3 in
    let (once, h5) = reject->>-eq-ok _ _ _ h4 in
    let (once', h6) = reject->>-eq-ok _ _ _ h5 in
    let (apart, h7) = reject->>-eq-ok _ _ _ h6 in
    let (whole, h8) = reject->>-eq-ok _ _ _ h7 in
    let (none_left, h9) = reject->>-eq-ok _ _ _ h8 in
    let (low, high) = or-false _ _ asked in
    (
      ok-injective h9,
      record {
        asked = (ltb-false _ _ low, ltb-false _ _ high);
        selected_bounded = ltb-false _ _ selected;
        reserve_bounded = ltb-false _ _ reserve;
        minutes_bounded = ltb-false _ _ minutes;
        selected_once = has_duplicates-false _ once;
        reserve_once = has_duplicates-false _ once';
        disjoint = λ id m. mem-false _ (any-false _ _ apart id m);
        complete = λ t. (nat_eq.beq_iff _ _).0 (not-false (guarded whole t));
        nothing = λ f.
            let (p, q) = or-false _ _ (guarded_not none_left f) in
            (non_empty-false _ p, non_empty-false _ q);
      },
    )

pub diagnostic-eq-ok :
    (code message : String) (severity : Severity) (evidence_ids source_ids : List String)
    (retryable : Bool) (details : List (String × Detail)) {item : Diagnostic}
    → diagnostic code message severity evidence_ids source_ids retryable details ≡ ok item
    → (item.code ≡ code) × (item.severity ≡ severity) × (item.retryable ≡ retryable)
unfolding diagnostic create_diagnostic
diagnostic-eq-ok code message severity evidence_ids source_ids retryable details h =
    let (cleaned, done, h0) = >>=-eq-ok (safe_details details) _ h in
    let (short, h1) = reject->>-eq-ok _ _ _ h0 in
    let (long, h2) = reject->>-eq-ok _ _ _ h1 in
    let (evidence, h3) = reject->>-eq-ok _ _ _ h2 in
    let (sources, h4) = reject->>-eq-ok _ _ _ h3 in
    let same = ok-injective h4 in
    (ap (λ d. d.code) (sym same), ap (λ d. d.severity) (sym same), ap (λ d. d.retryable) (sym same))

mem-eq-false : (id : String) (ids : List String) → ¬ Memᴰ id ids → mem id ids ≡ false
mem-eq-false id ids out = elim (Bool-cases (mem id ids)) [
  | inl t ↦ absurd (out (mem-true id ids t))
  | inr f ↦ f
]

ready_guard : (b : Bool) (m n : ℕ) → (b ≡ true → m ≡ n) → (b && not (m == n)) ≡ false
ready_guard true m n h = not-ne_of_eq m n (h refl)
ready_guard false m n h = refl

failed_guard :
    (b : Bool) (xs ys : List String)
    → (b ≡ false → (xs ≡ []) × (ys ≡ []))
    → (not b && (non_empty xs || non_empty ys)) ≡ false
failed_guard true xs ys h = refl
failed_guard false xs ys h = let (p, q) = h refl in rw (p, q) refl

asked_guard : (n : ℕ) → 1 ≤ n → n ≤ 20 → (ltb n 1 || ltb 20 n) ≡ false
asked_guard n low high = ground arith

-- A plan that keeps the contract is made.
pub Atomic-create_plan : (plan : AssessmentPlan) → Atomic plan → create_plan plan ≡ ok plan
unfolding create_plan reject ◌>>◌
Atomic-create_plan plan a =
    rw
      (
        asked_guard plan.question_count a.asked.0 a.asked.1,
        ltb-eq-false 20 (length plan.selected_opportunity_ids) a.selected_bounded,
        ltb-eq-false 10 (length plan.reserve_opportunity_ids) a.reserve_bounded,
        ltb-eq-false 120 plan.estimated_total_minutes a.minutes_bounded,
        has_duplicates-eq-false plan.selected_opportunity_ids a.selected_once,
        has_duplicates-eq-false plan.reserve_opportunity_ids a.reserve_once,
        any-eq-false (λ id. mem id plan.reserve_opportunity_ids) plan.selected_opportunity_ids
            (λ id m. mem-eq-false id plan.reserve_opportunity_ids (a.disjoint id m)),
        ready_guard (is_ready plan.status) (length plan.selected_opportunity_ids)
            plan.question_count a.complete,
        failed_guard (is_ready plan.status) plan.selected_opportunity_ids
            plan.reserve_opportunity_ids a.nothing,
      )
      refl
