-- ===== src/Planning/Build/Refused.antt =====
-- A complete failure is always made.
use Prim.Native.String.{count}
use pruebas_personalizadas.Prelude.Common.{ℕ, ◌≤◌, ◌≡◌, ◌≢◌, refl, String, List, [], false, arith}
use mathlib.Core.List.{Nodup-nil}
use pruebas_personalizadas.Prelude.Tests.{ltb, ltb-eq-false}
use pruebas_personalizadas.Prelude.Lists.{length, take, any, length-take-le}
use pruebas_personalizadas.Prelude.Result.{
  ok, reject, ◌>>◌, ◌>>=◌, Succeeds, >>=-Succeeds, reject-Succeeds,
}
use pruebas_personalizadas.Prelude.Floats.{Floats}
use pruebas_personalizadas.Contracts.Enums.{Severity}
use pruebas_personalizadas.Contracts.Evidence.{Detail}
use pruebas_personalizadas.Contracts.Blueprint.{AssessmentBlueprint}
use pruebas_personalizadas.Contracts.Planning.{
  EvidenceMapPatch, MappingStatus, PlanStatus, plan_text,
}
use pruebas_personalizadas.Diagnostics.{
  safe_details, create_diagnostic, diagnostic, is_sensitive, lowers_to,
}
use pruebas_personalizadas.Planning.Build.{
  Part, is_ready, complete_failure, failure_from_mapping, message_by_status,
}
use pruebas_personalizadas.Planning.Build.Created.{Atomic-create_plan}

message-bounds :
    (status : PlanStatus)
    → is_ready status ≡ false
    → (ltb (count (message_by_status status)) 3 ≡ false)
      × (ltb 1000 (count (message_by_status status)) ≡ false)
message-bounds PlanStatus.ready f = cc
message-bounds PlanStatus.insufficient_relevant_evidence f = (refl, refl)
message-bounds PlanStatus.insufficient_distinct_question_opportunities f = (refl, refl)
message-bounds PlanStatus.evidence_mapping_uncertain f = (refl, refl)
message-bounds PlanStatus.assessment_plan_infeasible f = (refl, refl)

diagnostic-some :
    (status : PlanStatus) (evidence_ids : List String) (details : List (String × Detail))
    → is_ready status ≡ false
    → safe_details details ≡ ok details
    → Succeeds (
        diagnostic
          (plan_text status)
          (message_by_status status)
          Severity.error
          (take 100 evidence_ids)
          []
          false
          details)
unfolding diagnostic create_diagnostic
diagnostic-some status evidence_ids details f safe =
    let (short, long) = message-bounds status f in
    >>=-Succeeds (safe_details details) _ safe (
      reject-Succeeds _ _ _ short (
        reject-Succeeds _ _ _ long (
          reject-Succeeds _ _ _
            (ltb-eq-false 100 (length (take 100 evidence_ids)) (length-take-le 100 evidence_ids))
            (reject-Succeeds _ _ _ refl (_, refl)))))

module _ {F : Type 0} (fl : Floats F) (stable_id : String → List Part → String) where
  pub complete_failure-some :
      (status : PlanStatus) (submission_id : String) (blueprint : AssessmentBlueprint F)
      (question_count : ℕ) (evidence_ids : List String) (details : List (String × Detail))
      → is_ready status ≡ false
      → 1 ≤ question_count
      → question_count ≤ 20
      → safe_details details ≡ ok details
      → Succeeds (
          complete_failure fl stable_id status submission_id blueprint question_count evidence_ids
            details)
  unfolding complete_failure
  complete_failure-some status submission_id blueprint question_count evidence_ids details f low
        high safe =
      let (item, made) = diagnostic-some status evidence_ids details f safe in
      >>=-Succeeds
        (diagnostic (plan_text status) (message_by_status status) Severity.error
          (take 100 evidence_ids) [] false details)
        _ made
        (
          _,
          Atomic-create_plan _ (record {
            asked = (low, high);
            selected_bounded = omega arith;
            reserve_bounded = omega arith;
            minutes_bounded = omega arith;
            selected_once = Nodup-nil;
            reserve_once = Nodup-nil;
            disjoint = λ id m. elim m [ ];
            complete = λ t. cc (f, t);
            nothing = λ _. (refl, refl);
          }),
        )

  pub failure_from_mapping-some :
      (mapping : EvidenceMapPatch F) (blueprint : AssessmentBlueprint F) (question_count : ℕ)
      → mapping.status ≢ MappingStatus.ready
      → mapping.status ≢ MappingStatus.technical_failure
      → 1 ≤ question_count
      → question_count ≤ 20
      → Succeeds (failure_from_mapping fl stable_id mapping blueprint question_count)
  unfolding failure_from_mapping safe_details is_sensitive lowers_to any ◌>>=◌ ◌>>◌ reject
  failure_from_mapping-some mapping blueprint question_count unready known low high =
      go mapping.status refl
    where
      go :
          (status : MappingStatus)
          → mapping.status ≡ status
          → Succeeds (failure_from_mapping fl stable_id mapping blueprint question_count)
      go MappingStatus.ready e = absurd (unready e)
      go MappingStatus.insufficient_relevant_evidence e =
          rw e (complete_failure-some _ _ blueprint question_count _ _ refl low high refl)
      go MappingStatus.insufficient_distinct_question_opportunities e =
          rw e (complete_failure-some _ _ blueprint question_count _ _ refl low high refl)
      go MappingStatus.evidence_mapping_uncertain e =
          rw e (complete_failure-some _ _ blueprint question_count _ _ refl low high refl)
      go MappingStatus.technical_failure e = absurd (known e)
