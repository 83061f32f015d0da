-- ===== src/Validation/Candidate/Derived.antt =====
-- What an accepted candidate promises.
use pruebas_personalizadas.Prelude.Common.{
  String, ◌≡◌, ◌≢◌, refl, subst, some, [], map, Bool, true, false, Memᴰ,
}
use pruebas_personalizadas.Prelude.Tests.{is_some, or-false, not-false}
use pruebas_personalizadas.Prelude.Eq.{nat_eq, string_eq, bool_eq, eq_of_not-ne}
use pruebas_personalizadas.Prelude.Result.{
  ok, reject, each, ◌>>◌, >>-eq-ok, >>=-eq-ok, reject->>-eq-ok, reject-eq-ok, each-mem,
}
use pruebas_personalizadas.Prelude.Lists.{any-false}
use pruebas_personalizadas.Prelude.Sets.{IsSubset, mem-true, subset-true, same_set-true, get-some}
use pruebas_personalizadas.Prelude.Floats.{Floats}
use pruebas_personalizadas.Contracts.Enums.{
  ContextMode, cognitive_operation_eq, response_format_eq, difficulty_band_eq, anchor_structure_eq,
}
use pruebas_personalizadas.Contracts.Locators.{same_locator}
use pruebas_personalizadas.Contracts.Evidence.{EvidenceUnit, EvidenceBundle}
use pruebas_personalizadas.Contracts.Planning.{QuestionOpportunity}
use pruebas_personalizadas.Contracts.Questions.{
  Transformation, AnchorFragment, ObservableElement, QuestionCandidate, GenerationStatus,
  QuestionGenerationResult,
}
use pruebas_personalizadas.Validation.Error.{or_raise-eq-ok}
use pruebas_personalizadas.Validation.Context.{
  from_bundle, evidence_ids_of, source_ids_of, non_empty-false,
}
use pruebas_personalizadas.Validation.Context.Ownership.{IsOwned, validate_evidence_context-IsOwned}
use pruebas_personalizadas.Validation.Candidate.{
  Pattern, secret_patterns, prohibited_claims, is_substring, text_or_empty,
  check_safe_generated_text, check_element, check_derivation, check_fragment, check_sources,
  check_planned, validate_question_candidate, generation_by_status, validate_generation_result,
}

module _ {F : Type 0} where
  -- The candidate keeps what its opportunity planned.
  pub record IsPlanned (c : QuestionCandidate F) (o : QuestionOpportunity F) : Type 0 where
    pub opportunity : c.opportunity_id ≡ o.opportunity_id
    pub template : c.opportunity_template_id ≡ o.opportunity_template_id
    pub dimension : c.dimension_id ≡ o.dimension_id
    pub variant : c.variant_id ≡ o.variant_id
    pub operation : c.cognitive_operation ≡ o.cognitive_operation
    pub format : Memᴰ c.response_format o.allowed_response_formats
    pub difficulty : c.difficulty ≡ o.difficulty
    pub minutes : c.estimated_minutes ≡ o.target_minutes
    pub justification : c.student_justification_required ≡ o.student_justification_required
    pub structure : Memᴰ c.anchor.structure o.allowed_anchor_structures
    pub evidence : IsSubset c.evidence_ids o.evidence_ids

  -- A fragment of the anchor at the place of a unit of the bundle: its text is in that unit, but a table slice
  -- has only to be of a unit with structured content.
  pub record IsShown (fl : Floats F) (bundle : EvidenceBundle F) (fragment : AnchorFragment F)
      : Type 0 where
    pub unit : EvidenceUnit F
    pub display_text : String
    pub held : Memᴰ unit bundle.evidence_units
    pub named : unit.evidence_id ≡ fragment.evidence_id
    pub place : same_locator fl fragment.locator unit.locator ≡ true
    pub shown : fragment.display_text ≡ some display_text
    pub literal :
        fragment.transformation ≢ Transformation.table_slice
        → is_substring display_text (text_or_empty unit.content_text) ≡ true
    pub table :
        fragment.transformation ≡ Transformation.table_slice
        → is_some unit.structured_content ≡ true

  pub record IsDerived (fl : Floats F) (re : Pattern → String → Bool) (bundle : EvidenceBundle F)
      (o : QuestionOpportunity F) (c : QuestionCandidate F) : Type 0 where
    pub owned : IsOwned bundle
    pub submission : c.submission_id ≡ bundle.submission_id
    pub planned_for : c.submission_id ≡ o.submission_id
    pub planned : IsPlanned c o
    pub known : IsSubset c.evidence_ids (evidence_ids_of (from_bundle bundle))
    pub elements :
        (element : ObservableElement)
        → Memᴰ element c.preliminary_guide.observable_elements
        → IsSubset element.evidence_ids c.evidence_ids
          × IsSubset element.source_ids c.course_source_ids
    pub no_claim : re prohibited_claims c.question_text ≡ false
    pub no_secret :
        (pattern : Pattern) → Memᴰ pattern secret_patterns → re pattern c.question_text ≡ false
    pub fragments :
        (fragment : AnchorFragment F)
        → Memᴰ fragment c.anchor.fragments
        → IsShown fl bundle fragment
    pub closed :
        bundle.context_mode ≡ ContextMode.closed → (c.course_source_ids ≡ []) × (c.citations ≡ [])
    pub cited :
        bundle.context_mode ≡ ContextMode.course_enriched
        → IsSubset c.course_source_ids (map (λ item. item.source_id) c.citations)
          × IsSubset c.course_source_ids (source_ids_of (from_bundle bundle))

  check_planned-IsPlanned :
      (fl : Floats F) (re : Pattern → String → Bool) (c : QuestionCandidate F)
      (o : QuestionOpportunity F)
      → check_planned fl re c o ≡ ok tt
      → IsPlanned c o
  unfolding check_planned
  check_planned-IsPlanned fl re c o h =
      let (opp, h1) = reject->>-eq-ok _ _ _ h in
      let (path, h2) = reject->>-eq-ok _ _ _ h1 in
      let (operation, h3) = reject->>-eq-ok _ _ _ h2 in
      let (format, h4) = reject->>-eq-ok _ _ _ h3 in
      let (kept, h5) = reject->>-eq-ok _ _ _ h4 in
      let (structure, h6) = reject->>-eq-ok _ _ _ h5 in
      let (path', v) = or-false _ _ path in
      let (t, d) = or-false _ _ path' in
      let (kept', justification) = or-false _ _ kept in
      let (difficulty, minutes) = or-false _ _ kept' in
      record {
        opportunity = eq_of_not-ne _ _ opp;
        template = eq_of_not-ne _ _ t;
        dimension = eq_of_not-ne _ _ d;
        variant = eq_of_not-ne _ _ v;
        operation = eq_of_not-ne c.cognitive_operation o.cognitive_operation operation;
        format = mem-true c.response_format _ (not-false format);
        difficulty = eq_of_not-ne c.difficulty o.difficulty difficulty;
        minutes = eq_of_not-ne c.estimated_minutes o.target_minutes minutes;
        justification = eq_of_not-ne c.student_justification_required _ justification;
        structure = mem-true c.anchor.structure _ (not-false structure);
        evidence = subset-true _ _ (not-false (reject-eq-ok _ _ h6));
      }

  module _ (fl : Floats F) (re : Pattern → String → Bool) (bundle : EvidenceBundle F) where
    check_derivation-literal :
        (t : Transformation) (text : String) (unit : EvidenceUnit F)
        → check_derivation fl re t text unit ≡ ok tt
        → (t ≢ Transformation.table_slice
            → is_substring text (text_or_empty unit.content_text) ≡ true)
          × (t ≡ Transformation.table_slice → is_some unit.structured_content ≡ true)
    unfolding check_derivation
    check_derivation-literal Transformation.table_slice text unit h =
        (λ n. absurd (n refl), λ e. not-false (reject-eq-ok _ _ h))
    check_derivation-literal Transformation.literal text unit h =
        (λ n. not-false (reject-eq-ok _ _ h), λ e. cc)
    check_derivation-literal Transformation.crop text unit h =
        (λ n. not-false (reject-eq-ok _ _ h), λ e. cc)
    check_derivation-literal Transformation.code_context text unit h =
        (λ n. not-false (reject-eq-ok _ _ h), λ e. cc)
    check_derivation-literal Transformation.alt_text text unit h =
        (λ n. not-false (reject-eq-ok _ _ h), λ e. cc)

    check_fragment-IsShown :
        (fragment : AnchorFragment F)
        → check_fragment fl re (from_bundle bundle) fragment ≡ ok tt
        → IsShown fl bundle fragment
    unfolding check_fragment
    check_fragment-IsShown fragment h =
        let (unit, found, h1) = >>=-eq-ok _ _ h in
        let (place, h2) = reject->>-eq-ok _ _ _ h1 in
        let (text, shown, h3) = >>=-eq-ok _ _ h2 in
        let (held, named) =
          get-some (λ (u : EvidenceUnit F). u.evidence_id) fragment.evidence_id
            bundle.evidence_units (or_raise-eq-ok _ _ found) in
        let (literal, table) = check_derivation-literal fragment.transformation text unit h3 in
        record {
          unit = unit;
          display_text = text;
          held = held;
          named = named;
          place = not-false place;
          shown = or_raise-eq-ok _ _ shown;
          literal = literal;
          table = table;
        }

    check_sources-cited :
        (mode : ContextMode) (c : QuestionCandidate F)
        → check_sources fl re mode (from_bundle bundle) c ≡ ok tt
        → (mode ≡ ContextMode.closed → (c.course_source_ids ≡ []) × (c.citations ≡ []))
          × (mode ≡ ContextMode.course_enriched
              → IsSubset c.course_source_ids (map (λ item. item.source_id) c.citations)
                × IsSubset c.course_source_ids (source_ids_of (from_bundle bundle)))
    unfolding check_sources
    check_sources-cited ContextMode.closed c h =
        let (sources, citations) = or-false _ _ (reject-eq-ok _ _ h) in
        (λ e. (non_empty-false _ sources, non_empty-false _ citations), λ e. cc)
    check_sources-cited ContextMode.course_enriched c h =
        let (same, h1) = reject->>-eq-ok _ _ _ h in
        (
          λ e. cc,
          λ e. (
            (same_set-true _ _ (not-false same)).0,
            subset-true _ _ (not-false (reject-eq-ok _ _ h1)),
          ),
        )

    check_element-subset :
        (c : QuestionCandidate F) (element : ObservableElement)
        → check_element fl re c element ≡ ok tt
        → IsSubset element.evidence_ids c.evidence_ids
          × IsSubset element.source_ids c.course_source_ids
    unfolding check_element
    check_element-subset c element h =
        let (evidence, h1) = reject->>-eq-ok _ _ _ h in
        (subset-true _ _ (not-false evidence), subset-true _ _ (not-false (reject-eq-ok _ _ h1)))

    validate_question_candidate-IsDerived :
        (c : QuestionCandidate F) (o : QuestionOpportunity F)
        → validate_question_candidate fl re c o bundle ≡ ok tt
        → IsDerived fl re bundle o c
    unfolding validate_question_candidate check_safe_generated_text
    validate_question_candidate-IsDerived c o h =
        let (context, accepted, h1) = >>=-eq-ok _ _ h in
        let (same, owned) = validate_evidence_context-IsOwned bundle accepted in
        let (submission, h2) = reject->>-eq-ok _ _ _ h1 in
        let (planned, h3) = >>-eq-ok (check_planned fl re c o) _ h2 in
        let (known, h4) = reject->>-eq-ok _ _ _ h3 in
        let (elements, h5) = >>-eq-ok (each _ _) _ h4 in
        let (safe, h6) = >>-eq-ok (reject _ _ >> reject _ _) _ h5 in
        let (fragments, sources) = >>-eq-ok (each _ _) _ h6 in
        let (here, there) = or-false _ _ submission in
        let (claim, secret) = reject->>-eq-ok _ _ _ safe.1 in
        let bound =
          check_sources-cited bundle.context_mode c
            (subst (λ k. check_sources fl re bundle.context_mode k c ≡ ok tt) same sources) in
        record {
          owned = owned;
          submission = eq_of_not-ne _ _ here;
          planned_for = eq_of_not-ne _ _ there;
          planned = check_planned-IsPlanned fl re c o planned.1;
          known =
              subst (λ k. IsSubset c.evidence_ids (evidence_ids_of k)) same
                (subset-true _ _ (not-false known));
          elements = λ e m. check_element-subset c e (each-mem _ _ elements.1 e m);
          no_claim = claim;
          no_secret = any-false _ _ (reject-eq-ok _ _ secret);
          fragments = λ f m.
              check_fragment-IsShown f
                (subst (λ k. check_fragment fl re k f ≡ ok tt) same (each-mem _ _ fragments.1 f m));
          closed = bound.0;
          cited = bound.1;
        }

    -- A READY generation that is accepted has a candidate that keeps the path, operation, formats,
    -- difficulty, time and evidence of its opportunity, that uses evidence of the bundle alone, whose text
    -- matches no prohibited pattern, each fragment of whose anchor stands at the place of a unit of the
    -- bundle and shows text of that unit, but for a table slice, whose unit has only to have structured
    -- content and whose text is not compared, and whose sources are none in a closed context and cited and
    -- allowlisted in an enriched one.
    pub validate_generation_result-IsDerived :
        (result : QuestionGenerationResult F) (o : QuestionOpportunity F)
        → validate_generation_result fl re result o bundle ≡ ok tt
        → result.status ≡ GenerationStatus.ready
        → (c : QuestionCandidate F) × (result.candidate ≡ some c) × IsDerived fl re bundle o c
    unfolding validate_generation_result generation_by_status
    validate_generation_result-IsDerived result o h ready =
        let (c, found, h1) = >>=-eq-ok _ _ (rw (ready, validate_generation_result) at h) in
        (c, or_raise-eq-ok _ _ found, validate_question_candidate-IsDerived c o h1)
