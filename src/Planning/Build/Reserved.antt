-- ===== src/Planning/Build/Reserved.antt =====
-- Where the opportunities of a selection and of its reserve come from.
use pruebas_personalizadas.Prelude.Common.{
  ℕ, zero, suc, ◌+◌, ◌≤◌, ◌≡◌, refl, sym, ap, subst, ◌∙◌, none, some, List, [], ◌∷◌, ◌++◌, Bool,
  true, false, not, ◌&&◌, inl, inr, ◌⊎◌, Memᴰ, arith,
}
use pruebas_personalizadas.Prelude.Tests.{
  if◌then◌else◌, nat_beq, Bool-cases, Option-cases, some-injective,
}
use pruebas_personalizadas.Prelude.Eq.{◌==◌, nat_eq, bool_eq}
use pruebas_personalizadas.Prelude.Lists.{
  length, take, get_elem?, mem-append, mem-take, length-take-le, mem-filter, map-mem,
}
use pruebas_personalizadas.Prelude.Sets.{mem}
use pruebas_personalizadas.Prelude.Sort.{mem-sort}
use pruebas_personalizadas.Prelude.Floats.{Floats}
use pruebas_personalizadas.Contracts.Blueprint.{AssessmentPlanningPolicy, AssessmentBlueprint}
use pruebas_personalizadas.Contracts.Planning.{QuestionOpportunity, EvidenceMapPatch}
use pruebas_personalizadas.Planning.Scores.{ScoredOpportunity}
use pruebas_personalizadas.Planning.Search.{
  items_at, is_candidate, valid_candidates, unselected_from,
}
use pruebas_personalizadas.Planning.Build.{
  is_in, first_compatible, keep_classes, fill, reserve_of, classes_of,
}

pub get_elem?-mem : {A : Type 0} (xs : List A) (i : ℕ) {a : A} → get_elem? xs i ≡ some a → Memᴰ a xs
get_elem?-mem [] i h = cc
get_elem?-mem (x ∷ xs) zero h = Memᴰ.head (sym (some-injective h))
get_elem?-mem (x ∷ xs) (suc i) h = Memᴰ.tail (get_elem?-mem xs i h)

module _ {F : Type 0} (scored : List (ScoredOpportunity F)) where
  pub items_at-some :
      (i : ℕ) (is : List ℕ) {s : ScoredOpportunity F}
      → get_elem? scored i ≡ some s
      → items_at scored (i ∷ is) ≡ s.opportunity ∷ items_at scored is
  unfolding items_at
  items_at-some i is h = rw (h, items_at) refl

  items_at-none :
      (i : ℕ) (is : List ℕ)
      → get_elem? scored i ≡ none
      → items_at scored (i ∷ is) ≡ items_at scored is
  unfolding items_at
  items_at-none i is h = rw (h, items_at) refl

  items_at-nil : {o : QuestionOpportunity F} → ¬ Memᴰ o (items_at scored [])
  unfolding items_at
  items_at-nil m = elim m [ ]

  pub mem-items_at :
      (is : List ℕ) {o : QuestionOpportunity F}
      → Memᴰ o (items_at scored is)
      → (i : ℕ) × (s : ScoredOpportunity F) × Memᴰ i is
        × (get_elem? scored i ≡ some s)
        × (s.opportunity ≡ o)
  mem-items_at [] m = absurd (items_at-nil m)
  mem-items_at (i ∷ is) {o} m =
      go (λ k. later (mem-items_at is k)) (Option-cases (get_elem? scored i))
    where
      Found : List ℕ → Type 0
      Found js =
          (j : ℕ) × (s : ScoredOpportunity F) × Memᴰ j js
          × (get_elem? scored j ≡ some s)
          × (s.opportunity ≡ o)

      later : Found is → Found (i ∷ is)
      later (j, s, n, found, e) = (j, s, Memᴰ.tail n, found, e)

      here :
          (s : ScoredOpportunity F)
          → get_elem? scored i ≡ some s
          → (Memᴰ o (items_at scored is) → Found (i ∷ is))
          → Memᴰ o (s.opportunity ∷ items_at scored is)
          → Found (i ∷ is)
      here s found rest (Memᴰ.head e) = (i, s, Memᴰ.head refl, found, sym e)
      here s found rest (Memᴰ.tail k) = rest k

      go :
          (Memᴰ o (items_at scored is) → Found (i ∷ is))
          → (get_elem? scored i ≡ none)
            ⊎ ((s : ScoredOpportunity F) × (get_elem? scored i ≡ some s))
          → Found (i ∷ is)
      go rest (inl lost) = rest (subst (Memᴰ o) (items_at-none i is lost) m)
      go rest (inr (s, found)) = here s found rest (subst (Memᴰ o) (items_at-some i is found) m)

pub mem-unselected_from :
    {F : Type 0} (scored : List (ScoredOpportunity F)) (selected : List ℕ) (index : ℕ)
    (rest : List (ScoredOpportunity F)) {o : QuestionOpportunity F}
    → Memᴰ o (unselected_from scored selected index rest)
    → (i : ℕ) × (s : ScoredOpportunity F) × (get_elem? rest i ≡ some s)
      × (s.opportunity ≡ o)
      × (mem (i + index) selected ≡ false)
unfolding unselected_from
mem-unselected_from scored selected index [] m = elim m [ ]
mem-unselected_from {F} scored selected index (s ∷ rest) {o} m =
    go (λ k. later (mem-unselected_from scored selected (suc index) rest k)) (mem index selected)
      refl m
  where
    Found : Type 0
    Found =
        (i : ℕ) × (t : ScoredOpportunity F) × (get_elem? (s ∷ rest) i ≡ some t)
        × (t.opportunity ≡ o)
        × (mem (i + index) selected ≡ false)

    later :
        (i : ℕ) × (t : ScoredOpportunity F) × (get_elem? rest i ≡ some t)
          × (t.opportunity ≡ o)
          × (mem (i + suc index) selected ≡ false)
        → Found
    later (i, t, found, e, out) =
        (suc i, t, found, e, subst (λ n. mem n selected ≡ false) (omega arith) out)

    go :
        (Memᴰ o (unselected_from scored selected (suc index) rest) → Found)
        → (b : Bool) → mem index selected ≡ b
        → Memᴰ o (
            if b
            then unselected_from scored selected (suc index) rest
            else s.opportunity ∷ unselected_from scored selected (suc index) rest)
        → Found
    go next true e k = next k
    go next false e (Memᴰ.head p) =
        (0, s, refl, sym p, subst (λ n. mem n selected ≡ false) (omega arith) e)
    go next false e (Memᴰ.tail k) = next k

module _ {F : Type 0} (fl : Floats F) where
  pub mem-valid_candidates :
      (policy : AssessmentPlanningPolicy F) (mapping : EvidenceMapPatch F)
      (blueprint : AssessmentBlueprint F) {s : ScoredOpportunity F}
      → Memᴰ s (valid_candidates fl policy mapping blueprint)
      → Memᴰ s.opportunity mapping.opportunities
        × (is_candidate fl policy blueprint s.opportunity ≡ true)
  unfolding valid_candidates
  mem-valid_candidates policy mapping blueprint {s} m =
      let (o, n, e) = map-mem _ _ (mem-sort _ _ m) in
      let (k, t) = mem-filter _ mapping.opportunities n in
      let same : s.opportunity ≡ o = ap (λ x. x.opportunity) e in
      (
        subst (λ x. Memᴰ x mapping.opportunities) (sym same) k,
        ap (is_candidate fl policy blueprint) same ∙ t,
      )

  pub mem-first_compatible :
      (flag : Bool) (reserve candidates : List (QuestionOpportunity F)) {o : QuestionOpportunity F}
      → first_compatible fl flag reserve candidates ≡ some o
      → Memᴰ o candidates
  unfolding first_compatible
  mem-first_compatible flag reserve [] h = cc
  mem-first_compatible flag reserve (c ∷ cs) {o} h =
      elim (Bool-cases (c.student_justification_required == flag && not (is_in fl c reserve))) [
        | inl t ↦ Memᴰ.head (sym (some-injective (rw (t, first_compatible) at h)))
        | inr f ↦ Memᴰ.tail (mem-first_compatible flag reserve cs (rw (f, first_compatible) at h))
      ]

  abbrev pub Within : List (QuestionOpportunity F) → List (QuestionOpportunity F) → Type 0
  Within items pool = (o : QuestionOpportunity F) → Memᴰ o items → Memᴰ o pool

  pub Within-snoc :
      (items pool : List (QuestionOpportunity F)) (o : QuestionOpportunity F)
      → Within items pool
      → Memᴰ o pool
      → Within (items ++ o ∷ []) pool
  Within-snoc items pool o within m p n = elim (mem-append items (o ∷ []) n) [
    | inl k ↦ within p k
    | inr (Memᴰ.head e) ↦ subst (λ x. Memᴰ x pool) (sym e) m
    | inr (Memᴰ.tail k) ↦ elim k [ ]
  ]

  pub keep_classes-Within :
      (classes : List Bool) (candidates reserve : List (QuestionOpportunity F))
      → Within reserve candidates
      → Within (keep_classes fl classes candidates reserve) candidates
  unfolding keep_classes
  keep_classes-Within [] candidates reserve within = within
  keep_classes-Within (flag ∷ flags) candidates reserve within =
      elim (Option-cases (first_compatible fl flag reserve candidates)) [
        | inl lost ↦ rw (lost, keep_classes) (keep_classes-Within flags candidates reserve within)
        | inr (o, found) ↦
            rw (found, keep_classes)
              (keep_classes-Within flags candidates (reserve ++ o ∷ []) (
                Within-snoc reserve candidates o within
                  (mem-first_compatible flag reserve candidates found)))
      ]

  fill-Within :
      (candidates pool reserve : List (QuestionOpportunity F))
      → Within candidates pool
      → Within reserve pool
      → Within (fill fl candidates reserve) pool
  unfolding fill
  fill-Within [] pool reserve all within = within
  fill-Within (o ∷ os) pool reserve all within = elim (Bool-cases (is_in fl o reserve)) [
    | inl t ↦ rw (t, fill) (fill-Within os pool reserve (λ p m. all p (Memᴰ.tail m)) within)
    | inr f ↦
        rw (f, fill)
          (fill-Within os pool (reserve ++ o ∷ []) (λ p m. all p (Memᴰ.tail m))
            (Within-snoc reserve pool o within (all o (Memᴰ.head refl))))
  ]

  pub mem-reserve_of :
      (max_reserve : ℕ) (primary candidates : List (QuestionOpportunity F))
      → Within (reserve_of fl max_reserve primary candidates) candidates
  unfolding reserve_of
  mem-reserve_of max_reserve primary candidates = go (nat_beq max_reserve 0)
    where
      filled : List (QuestionOpportunity F)
      filled = fill fl candidates (keep_classes fl (classes_of primary) candidates [])

      go : (b : Bool) → Within (if b then [] else take max_reserve filled) candidates
      go true o m = elim m [ ]
      go false o m =
          fill-Within candidates candidates _ (λ p n. n)
            (keep_classes-Within (classes_of primary) candidates [] (λ p n. elim n [ ])) o
            (mem-take max_reserve filled m)

  pub length-reserve_of :
      (max_reserve : ℕ) (primary candidates : List (QuestionOpportunity F))
      → length (reserve_of fl max_reserve primary candidates) ≤ max_reserve
  unfolding reserve_of
  length-reserve_of max_reserve primary candidates = elim (Bool-cases (nat_beq max_reserve 0)) [
    | inl t ↦ rw (t, reserve_of) (omega arith)
    | inr f ↦ rw (f, reserve_of) (length-take-le max_reserve _)
  ]
