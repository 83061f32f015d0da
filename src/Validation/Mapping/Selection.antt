-- ===== src/Validation/Mapping/Selection.antt =====
-- The evidence that a list of ids selects, and what the shared requirement tests establish of it.
use mathlib.Core.List.{Nodup}
use pruebas_personalizadas.Prelude.Common.{
  ◌≤◌, String, ◌≡◌, ◌≢◌, refl, sym, subst, ◌∙◌, List, [], ◌∷◌, true, false, Memᴰ, arith,
}
use pruebas_personalizadas.Prelude.Tests.{not-false, and-false_right, ltb-false}
use pruebas_personalizadas.Prelude.Eq.{string_eq}
use pruebas_personalizadas.Prelude.Result.{
  ok, ok-injective, >>=-eq-ok, reject->>-eq-ok, reject-eq-ok,
}
use pruebas_personalizadas.Prelude.Lists.{length, any-false, map-mem}
use pruebas_personalizadas.Prelude.Sets.{mem-true, distinct_two, Nodup-length-distinct, get-some}
use pruebas_personalizadas.Prelude.Floats.{Floats}
use pruebas_personalizadas.Contracts.Enums.{evidence_modality_eq}
use pruebas_personalizadas.Contracts.Evidence.{EvidenceUnit}
use pruebas_personalizadas.Contracts.Blueprint.{EvidenceRequirement}
use pruebas_personalizadas.Validation.Error
use pruebas_personalizadas.Validation.Error.{or_raise, or_raise-eq-ok}
use pruebas_personalizadas.Validation.Context.{EvidenceContext, find_evidence}
use pruebas_personalizadas.Validation.Mapping.{select_evidence, check_requirement}

-- Unit `unit` of the context has id `id`.
pub record IsUnit {F : Type 0} (context : EvidenceContext F) (id : String) (unit : EvidenceUnit F)
    : Type 0 where
  pub held : Memᴰ unit context.evidence_by_id
  pub named : unit.evidence_id ≡ id

module _ {F : Type 0} (context : EvidenceContext F) where
  find_evidence-IsUnit :
      (id : String) {unit : EvidenceUnit F}
      → or_raise (find_evidence context id) Error.key_error ≡ ok unit
      → IsUnit context id unit
  find_evidence-IsUnit id h =
      let (m, e) =
        get-some (λ (u : EvidenceUnit F). u.evidence_id) id context.evidence_by_id
          (or_raise-eq-ok _ _ h) in
      record { held = m; named = e }

  -- Every id has its unit among the selected ones.
  pub select_evidence-mem :
      (ids : List String) {units : List (EvidenceUnit F)}
      → select_evidence context ids ≡ ok units
      → (id : String) → Memᴰ id ids
      → (unit : EvidenceUnit F) × Memᴰ unit units × IsUnit context id unit
  unfolding select_evidence
  select_evidence-mem [] h id m = elim m [ ]
  select_evidence-mem (x ∷ ids) {units} h id m =
      let (unit, found, h1) = >>=-eq-ok _ _ h in
      let (rest, selected, h2) = >>=-eq-ok _ _ h1 in
      let e : unit ∷ rest ≡ units = cc h2 in
      go unit rest e (find_evidence-IsUnit x found) m (select_evidence-mem ids selected id)
    where
      go :
          (unit : EvidenceUnit F) (rest : List (EvidenceUnit F))
          → unit ∷ rest ≡ units
          → IsUnit context x unit
          → Memᴰ id (x ∷ ids)
          → (Memᴰ id ids → (u : EvidenceUnit F) × Memᴰ u rest × IsUnit context id u)
          → (u : EvidenceUnit F) × Memᴰ u units × IsUnit context id u
      go unit rest e u (Memᴰ.head p) later =
          (unit, subst (Memᴰ unit) e (Memᴰ.head refl), subst (λ j. IsUnit context j unit) (sym p) u)
      go unit rest e u (Memᴰ.tail k) later =
          let (v, n, w) = later k in (v, subst (Memᴰ v) e (Memᴰ.tail n), w)

  -- And every selected unit is one of an id.
  pub mem-select_evidence :
      (ids : List String) {units : List (EvidenceUnit F)}
      → select_evidence context ids ≡ ok units
      → (unit : EvidenceUnit F) → Memᴰ unit units
      → (id : String) × Memᴰ id ids × IsUnit context id unit
  unfolding select_evidence
  mem-select_evidence [] h unit m = elim (subst (Memᴰ unit) (sym (ok-injective h)) m) [ ]
  mem-select_evidence (x ∷ ids) h unit m =
      let (first, found, h1) = >>=-eq-ok _ _ h in
      let (rest, selected, h2) = >>=-eq-ok _ _ h1 in
      go first rest (find_evidence-IsUnit x found) (subst (Memᴰ unit) (sym (ok-injective h2)) m)
        (mem-select_evidence ids selected unit)
    where
      go :
          (first : EvidenceUnit F) (rest : List (EvidenceUnit F))
          → IsUnit context x first
          → Memᴰ unit (first ∷ rest)
          → (Memᴰ unit rest → (id : String) × Memᴰ id ids × IsUnit context id unit)
          → (id : String) × Memᴰ id (x ∷ ids) × IsUnit context id unit
      go first rest u (Memᴰ.head p) later = (x, Memᴰ.head refl, subst (IsUnit context x) (sym p) u)
      go first rest u (Memᴰ.tail k) later = let (id, n, w) = later k in (id, Memᴰ.tail n, w)

-- The evidence `ids` meets a requirement: enough distinct units, each of an allowed modality and not
-- below the confidence floor, and from two artifacts where that is required.
pub record Meets {F : Type 0} (fl : Floats F) (context : EvidenceContext F)
    (requirement : EvidenceRequirement F) (ids : List String) : Type 0 where
  pub enough : requirement.min_distinct_units ≤ length ids
  pub usable :
      (id : String)
      → Memᴰ id ids
      → (unit : EvidenceUnit F) × IsUnit context id unit
        × Memᴰ unit.modality requirement.allowed_modalities
        × (fl.lt unit.extraction_confidence requirement.min_extraction_confidence ≡ false)
  pub crossing :
      requirement.cross_artifact_required ≡ true
      → (u : EvidenceUnit F) × (v : EvidenceUnit F) × (i : String) × (j : String) × Memᴰ i ids
        × Memᴰ j ids
        × IsUnit context i u
        × IsUnit context j v
        × (u.artifact_id ≢ v.artifact_id)

module _ {F : Type 0} (fl : Floats F) (context : EvidenceContext F)
    (requirement : EvidenceRequirement F) (ids : List String) where
  pub check_requirement-Meets :
      {units : List (EvidenceUnit F)}
      → Nodup ids
      → select_evidence context ids ≡ ok units
      → check_requirement fl context requirement ids units ≡ ok tt
      → Meets fl context requirement ids
  unfolding check_requirement
  check_requirement-Meets {units} once selected h =
      let (a, h1) = reject->>-eq-ok _ _ _ h in
      let (b, h2) = reject->>-eq-ok _ _ _ h1 in
      let (c, h3) = reject->>-eq-ok _ _ _ h2 in
      record {
        enough = omega (arith, ltb-false _ _ a, Nodup-length-distinct ids once);
        usable = λ id m.
            let (unit, held, u) = select_evidence-mem context ids selected id m in
            (
              unit,
              u,
              mem-true _ _ (not-false (any-false _ units b unit held)),
              any-false _ units c unit held,
            );
        crossing = λ required.
            let two = ltb-false _ _ (and-false_right required (reject-eq-ok _ _ h3)) in
            let (x, y, mx, my, differ) = distinct_two _ two in
            let (u, hu, eu) = map-mem _ units mx in
            let (v, hv, ev) = map-mem _ units my in
            let (i, mi, iu) = mem-select_evidence context ids selected u hu in
            let (j, mj, jv) = mem-select_evidence context ids selected v hv in
            (u, v, i, j, mi, mj, iu, jv, λ same. differ (eu ∙ same ∙ sym ev));
      }
