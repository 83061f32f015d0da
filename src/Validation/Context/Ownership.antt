-- ===== src/Validation/Context/Ownership.antt =====
-- What `validate_evidence_context` and `validate_complete_diagnostics` accept.
use pruebas_personalizadas.Prelude.Common.{
  ◌≡◌, ◌↔◌, some, [], true, false, ◌&&◌, Memᴰ, inl, inr, ◌⊎◌,
}
use pruebas_personalizadas.Prelude.Tests.{not-false, not-eq-false, and-false_right, Bool-cases}
use pruebas_personalizadas.Prelude.Eq.{◌==◌, string_eq, option_eq, eq_of_not-ne, not-ne_of_eq}
use pruebas_personalizadas.Prelude.Result.{
  ok, reject, each, ◌>>◌, >>-eq-ok, reject->>-eq-ok, reject-eq-ok, each-mem, each-eq-ok,
}
use pruebas_personalizadas.Prelude.Sets.{IsSubset, same_set-true, same_set-eq-true}
use pruebas_personalizadas.Contracts.Enums.{
  ContextMode, ArtifactRole, artifact_role_eq, context_mode_eq,
}
use pruebas_personalizadas.Contracts.Evidence.{EvidenceUnit, EvidenceBundle}
use pruebas_personalizadas.Validation.Context.{
  EvidenceContext, from_bundle, evidence_ids_of, check_unit, validate_evidence_context, non_empty,
  non_empty-false,
}

-- Every unit belongs to the bundle's tenant and submission, and the allowlist is exact.
pub record IsOwned {F : Type 0} (bundle : EvidenceBundle F) : Type 0 where
  pub listed : IsSubset bundle.allowed_evidence_ids (evidence_ids_of (from_bundle bundle))
  pub exact : IsSubset (evidence_ids_of (from_bundle bundle)) bundle.allowed_evidence_ids
  pub owner :
      (unit : EvidenceUnit F)
      → Memᴰ unit bundle.evidence_units
      → (unit.tenant_id ≡ bundle.tenant_id)
        × (unit.submission_id ≡ some bundle.submission_id)
        × (unit.source_role ≡ ArtifactRole.submission)
  pub closed : bundle.context_mode ≡ ContextMode.closed → bundle.course_passages ≡ []

module _ {F : Type 0} (bundle : EvidenceBundle F) where
  check_unit-owner :
      (unit : EvidenceUnit F)
      → check_unit bundle unit ≡ ok tt
      → (unit.tenant_id ≡ bundle.tenant_id)
        × (unit.submission_id ≡ some bundle.submission_id)
        × (unit.source_role ≡ ArtifactRole.submission)
  unfolding check_unit
  check_unit-owner unit h =
      let (t, h1) = reject->>-eq-ok _ _ _ h in
      let (s, h2) = reject->>-eq-ok _ _ _ h1 in
      (
        eq_of_not-ne unit.tenant_id bundle.tenant_id t,
        eq_of_not-ne unit.submission_id (some bundle.submission_id) s,
        eq_of_not-ne unit.source_role ArtifactRole.submission (reject-eq-ok _ _ h2),
      )

  owner-check_unit :
      (unit : EvidenceUnit F)
      → (unit.tenant_id ≡ bundle.tenant_id)
        × (unit.submission_id ≡ some bundle.submission_id)
        × (unit.source_role ≡ ArtifactRole.submission)
      → check_unit bundle unit ≡ ok tt
  unfolding check_unit reject ◌>>◌
  owner-check_unit unit (t, s, r) = rw (
    not-ne_of_eq unit.tenant_id bundle.tenant_id t,
    not-ne_of_eq unit.submission_id (some bundle.submission_id) s,
    not-ne_of_eq unit.source_role ArtifactRole.submission r,
  )

  pub validate_evidence_context-IsOwned :
      {context : EvidenceContext F}
      → validate_evidence_context bundle ≡ ok context
      → (context ≡ from_bundle bundle) × IsOwned bundle
  unfolding validate_evidence_context
  validate_evidence_context-IsOwned h =
      let (a, h1) = reject->>-eq-ok _ _ _ h in
      let (b, h2) = >>-eq-ok (each (check_unit bundle) bundle.evidence_units) _ h1 in
      let (c, h3) = reject->>-eq-ok _ _ _ h2 in
      let (listed, exact) =
        same_set-true bundle.allowed_evidence_ids (evidence_ids_of (from_bundle bundle))
          (not-false a) in
      (
        cc h3,
        record {
          listed = listed;
          exact = exact;
          owner = λ unit m. check_unit-owner unit (each-mem _ bundle.evidence_units b.1 unit m);
          closed = λ e.
              non_empty-false bundle.course_passages
                (and-false_right ((context_mode_eq.beq_iff _ _).1 e) c);
        },
      )

  IsOwned-validate_evidence_context :
      IsOwned bundle → validate_evidence_context bundle ≡ ok (from_bundle bundle)
  unfolding validate_evidence_context reject ◌>>◌
  IsOwned-validate_evidence_context o = rw (
    not-eq-false (same_set-eq-true _ _ o.listed o.exact),
    each-eq-ok (check_unit bundle) bundle.evidence_units
        (λ unit m. owner-check_unit unit (o.owner unit m)),
    closed_passages (Bool-cases (bundle.context_mode == ContextMode.closed)),
  )
    where
      closed_passages :
          ((bundle.context_mode == ContextMode.closed) ≡ true)
            ⊎ ((bundle.context_mode == ContextMode.closed) ≡ false)
          → (bundle.context_mode == ContextMode.closed && non_empty bundle.course_passages) ≡ false
      closed_passages (inl t) =
          rw (t, o.closed ((context_mode_eq.beq_iff bundle.context_mode ContextMode.closed).0 t))
      closed_passages (inr f) = rw f

  -- A bundle is accepted exactly when its units are those of the allowlist, each is a unit of a submission
  -- by its source role and belongs to the tenant and the submission of the bundle, and a closed bundle has
  -- no course passages; the context is then the one of the bundle.
  pub validate_evidence_context_iff :
      (validate_evidence_context bundle ≡ ok (from_bundle bundle)) ↔ IsOwned bundle
  validate_evidence_context_iff =
      (λ h. (validate_evidence_context-IsOwned h).1, IsOwned-validate_evidence_context)
