-- ===== src/Validation/Mapping/Grounded.antt =====
-- What an accepted evidence map guarantees of each of its opportunities.
use mathlib.Core.List.{Nodup}
use pruebas_personalizadas.Prelude.Common.{
  String, ◌≡◌, ◌≢◌, refl, ap, subst, List, true, false, Memᴰ,
}
use pruebas_personalizadas.Prelude.Tests.{not-false, or-false}
use pruebas_personalizadas.Prelude.Eq.{string_eq, pair_eq, eq_of_not-ne}
use pruebas_personalizadas.Prelude.Result.{
  Result, ok, ok-injective, each, each-mem, >>=-eq-ok, >>-eq-ok, reject->>-eq-ok, reject-eq-ok,
}
use pruebas_personalizadas.Prelude.Lists.{any, any-false}
use pruebas_personalizadas.Prelude.Sets.{IsSubset, subset-true, mem-true, get-some, get-some_mem}
use pruebas_personalizadas.Prelude.Floats.{Floats}
use pruebas_personalizadas.Contracts.Enums.{cognitive_operation_eq}
use pruebas_personalizadas.Contracts.Evidence.{EvidenceUnit, EvidenceBundle}
use pruebas_personalizadas.Contracts.Blueprint.{
  EvidenceVariant, BlueprintDimension, QuestionOpportunityTemplate, AssessmentBlueprint,
}
use pruebas_personalizadas.Contracts.Planning.{
  QuestionOpportunity, EvidenceVariantMatch, EvidenceMapPatch, MappingStatus,
}
use pruebas_personalizadas.Validation.Error
use pruebas_personalizadas.Validation.Error.{
  or_raise, or_raise-eq-ok, require_unique, require_unique-Nodup,
}
use pruebas_personalizadas.Validation.Context.{
  EvidenceContext, from_bundle, evidence_ids_of, unknown_evidence,
}
use pruebas_personalizadas.Validation.Context.Ownership.{IsOwned, validate_evidence_context-IsOwned}
use pruebas_personalizadas.Validation.Mapping.{
  variants_of, templates_of, operations_of, variant_key, template_key, inherits, check_path,
  check_evidence_source, check_opportunity, validate_ready_map, validate_evidence_map,
  validate_failed_map, by_status,
}
use pruebas_personalizadas.Validation.Mapping.Selection.{Meets, check_requirement-Meets}

-- The opportunity's dimension, variant and template in the blueprint.
pub record Placed {F : Type 0} (fl : Floats F) (blueprint : AssessmentBlueprint F)
    (o : QuestionOpportunity F) (d : BlueprintDimension F) (v : EvidenceVariant F)
    (t : QuestionOpportunityTemplate F) : Type 0 where
  pub owner : BlueprintDimension F
  pub parent : EvidenceVariant F
  pub dimension_held : Memᴰ d blueprint.dimensions
  pub dimension_named : d.dimension_id ≡ o.dimension_id
  pub variant_held : Memᴰ (owner, v) (variants_of blueprint.dimensions)
  pub variant_named : v.variant_id ≡ o.variant_id
  pub variant_owner : owner.dimension_id ≡ o.dimension_id
  pub template_held : Memᴰ (parent, t) (templates_of (variants_of blueprint.dimensions))
  pub template_named : t.opportunity_template_id ≡ o.opportunity_template_id
  pub template_parent : parent.variant_id ≡ o.variant_id

-- A match of the map at the opportunity's path that covers its evidence.
pub record Sourced {F : Type 0} (fl : Floats F) (matches : List (EvidenceVariantMatch F))
    (o : QuestionOpportunity F) : Type 0 where
  pub source : EvidenceVariantMatch F
  pub held : Memᴰ source matches
  pub dimension : source.dimension_id ≡ o.dimension_id
  pub variant : source.variant_id ≡ o.variant_id
  pub covered : IsSubset o.evidence_ids source.evidence_ids
  pub fit : fl.same o.evidence_fit source.evidence_fit ≡ true

pub record IsGrounded {F : Type 0} (fl : Floats F) (blueprint : AssessmentBlueprint F)
    (context : EvidenceContext F) (mapping : EvidenceMapPatch F) (o : QuestionOpportunity F)
    : Type 0 where
  pub dimension : BlueprintDimension F
  pub variant : EvidenceVariant F
  pub template : QuestionOpportunityTemplate F
  pub place : Placed fl blueprint o dimension variant template
  pub source : Sourced fl mapping.variant_matches o
  pub submission : o.submission_id ≡ mapping.submission_id
  pub known : IsSubset o.evidence_ids (evidence_ids_of context)
  pub once : Nodup o.evidence_ids
  pub supported : Memᴰ o.cognitive_operation (operations_of variant)
  pub planned : o.cognitive_operation ≡ template.cognitive_operation
  pub inherited : inherits blueprint fl context dimension template o ≡ true
  pub meets : Meets fl context variant.evidence_requirement o.evidence_ids

module _ {F : Type 0} (blueprint : AssessmentBlueprint F) (fl : Floats F)
    (context : EvidenceContext F) where
  pub known_evidence :
      (ids : List String)
      → any (unknown_evidence context) ids ≡ false
      → IsSubset ids (evidence_ids_of context)
  known_evidence ids h id m =
      get-some_mem (λ (u : EvidenceUnit F). u.evidence_id) id context.evidence_by_id
        (not-false (any-false (unknown_evidence context) ids h id m))

  check_path-Placed :
      (o : QuestionOpportunity F) {d : BlueprintDimension F} {v : EvidenceVariant F}
      {t : QuestionOpportunityTemplate F}
      → check_path blueprint fl context o ≡ ok (d, v, t)
      → Placed fl blueprint o d v t
  unfolding check_path
  check_path-Placed o h =
      let (dimension, fd, h1) = >>=-eq-ok _ _ h in
      let (place, fv, h2) = >>=-eq-ok _ _ h1 in
      let (leaf, ft, h3) = >>=-eq-ok _ _ h2 in
      let (_, h4) = reject->>-eq-ok _ _ _ h3 in
      let (b, h5) = reject->>-eq-ok _ _ _ h4 in
      let (owned, parented) = or-false _ _ b in
      let (md, nd) =
        get-some (λ (e : BlueprintDimension F). e.dimension_id) o.dimension_id blueprint.dimensions
          (or_raise-eq-ok _ _ fd) in
      let (mv, nv) =
        get-some variant_key o.variant_id (variants_of blueprint.dimensions)
          (or_raise-eq-ok _ _ fv) in
      let (mt, nt) =
        get-some template_key o.opportunity_template_id
          (templates_of (variants_of blueprint.dimensions)) (or_raise-eq-ok _ _ ft) in
      subst (λ p. Placed fl blueprint o p.0 p.1 p.2) (ok-injective h5)
        (record {
          owner = place.0;
          parent = leaf.0;
          dimension_held = md;
          dimension_named = nd;
          variant_held = mv;
          variant_named = nv;
          variant_owner = eq_of_not-ne _ _ owned;
          template_held = mt;
          template_named = nt;
          template_parent = eq_of_not-ne _ _ parented;
        })

  check_evidence_source-Sourced :
      (matches : List (EvidenceVariantMatch F)) (o : QuestionOpportunity F)
      → check_evidence_source blueprint fl context matches o ≡ ok tt
      → Sourced fl matches o
  unfolding check_evidence_source
  check_evidence_source-Sourced matches o h =
      let (m, found, h1) = >>=-eq-ok _ _ h in
      let (a, h2) = reject->>-eq-ok _ _ _ h1 in
      let (b, h3) = reject->>-eq-ok _ _ _ h2 in
      let (held, path) =
        get-some (λ (n : EvidenceVariantMatch F). (n.dimension_id, n.variant_id))
          (o.dimension_id, o.variant_id) matches (or_raise-eq-ok _ _ found) in
      record {
        source = m;
        held = held;
        dimension = ap (λ p. p.0) path;
        variant = ap (λ p. p.1) path;
        covered = subset-true _ _ (not-false b);
        fit = not-false (reject-eq-ok _ _ h3);
      }

  pub check_opportunity-IsGrounded :
      (mapping : EvidenceMapPatch F) (o : QuestionOpportunity F)
      → check_opportunity blueprint fl context mapping o ≡ ok tt
      → IsGrounded fl blueprint context mapping o
  unfolding check_opportunity
  check_opportunity-IsGrounded mapping o h =
      let (s, h1) = reject->>-eq-ok _ _ _ h in
      let (place, path, h2) = >>=-eq-ok _ _ h1 in
      let (source, h3) = >>-eq-ok (check_evidence_source _ _ _ _ _) _ h2 in
      let (a, h4) = reject->>-eq-ok _ _ _ h3 in
      let (b, h5) = reject->>-eq-ok _ _ _ h4 in
      let (c, h6) = reject->>-eq-ok _ _ _ h5 in
      let (k, h7) = reject->>-eq-ok _ _ _ h6 in
      let (u, h8) = >>-eq-ok (require_unique _ _) _ h7 in
      let (units, selected, h9) = >>=-eq-ok _ _ h8 in
      let once = require_unique-Nodup o.evidence_ids _ u.1 in
      record {
        dimension = place.0;
        variant = place.1;
        template = place.2;
        place = check_path-Placed o path;
        source = check_evidence_source-Sourced mapping.variant_matches o source.1;
        submission = eq_of_not-ne _ _ s;
        known = known_evidence o.evidence_ids k;
        once = once;
        supported = mem-true _ _ (not-false a);
        planned = eq_of_not-ne _ _ b;
        inherited = not-false c;
        meets = check_requirement-Meets fl context _ o.evidence_ids once selected h9;
      }

by_status-cases :
    (s : MappingStatus) {ready failed : Result Error.ErrorCode (Unit {0})}
    → by_status s ready failed ≡ ok tt
    → (s ≡ MappingStatus.ready → ready ≡ ok tt) × (s ≢ MappingStatus.ready → failed ≡ ok tt)
unfolding by_status
by_status-cases MappingStatus.ready h = (λ _. h, λ n. absurd (n refl))
by_status-cases _ h = (λ e. cc, λ _. h)

module _ {F : Type 0} (fl : Floats F) (mapping : EvidenceMapPatch F)
    (blueprint : AssessmentBlueprint F) (bundle : EvidenceBundle F) where
  abbrev context : EvidenceContext F
  context = from_bundle bundle

  -- An accepted map belongs to the bundle's submission, whose evidence is the bundle's own, and its
  -- status decides which tests it passed.
  pub validate_evidence_map-cases :
      validate_evidence_map fl mapping blueprint bundle ≡ ok tt
      → IsOwned bundle
        × (mapping.submission_id ≡ bundle.submission_id)
        × (mapping.status ≡ MappingStatus.ready
            → validate_ready_map fl context mapping blueprint ≡ ok tt)
        × (mapping.status ≢ MappingStatus.ready → validate_failed_map fl mapping ≡ ok tt)
  unfolding validate_evidence_map
  validate_evidence_map-cases h =
      let (c, accepted, h1) = >>=-eq-ok _ _ h in
      let (same, owned) = validate_evidence_context-IsOwned bundle accepted in
      let (s, h2) = reject->>-eq-ok _ _ _ h1 in
      let h2' =
        subst
          (λ k.
            by_status mapping.status (validate_ready_map fl k mapping blueprint)
              (validate_failed_map fl mapping)
            ≡ ok tt)
          same h2 in
      (
        owned,
        eq_of_not-ne _ _ s,
        (by_status-cases mapping.status h2').0,
        (by_status-cases mapping.status h2').1,
      )

  -- A READY map that is accepted grounds each of its opportunities: the opportunity belongs to the
  -- bundle's submission, has its dimension, variant and template in the blueprint and keeps what it
  -- inherits from them, is covered by a variant match of the map, and rests on distinct units of the
  -- bundle, each owned by its tenant and submission, that meet the variant's evidence requirement.
  pub validate_evidence_map-IsGrounded :
      validate_evidence_map fl mapping blueprint bundle ≡ ok tt
      → mapping.status ≡ MappingStatus.ready
      → IsOwned bundle
        × (mapping.submission_id ≡ bundle.submission_id)
        × ((o : QuestionOpportunity F)
            → Memᴰ o mapping.opportunities
            → IsGrounded fl blueprint (from_bundle bundle) mapping o)
  unfolding validate_ready_map
  validate_evidence_map-IsGrounded h ready =
      let (owned, same, passed, _) = validate_evidence_map-cases h in
      let (a, h1) = >>-eq-ok (require_unique _ _) _ (passed ready) in
      let (b, h2) = >>-eq-ok (require_unique _ _) _ h1 in
      let (c, h3) = >>-eq-ok (each _ _) _ h2 in
      let (d, h4) = >>-eq-ok (each _ _) _ h3 in
      (
        owned,
        same,
        λ o m.
            check_opportunity-IsGrounded blueprint fl context mapping o
              (each-mem _ mapping.opportunities h4 o m),
      )
