-- ===== src/Planning/Build/Kept.antt =====
-- The reserve repeats no identifier, and none of a selected opportunity.
use mathlib.Core.List.{Nodup, Nodup-nil}
use pruebas_personalizadas.Prelude.Common.{
  ℕ, ◌≡◌, refl, sym, ap, subst, some, List, [], ◌∷◌, ◌++◌, map, Bool, true, false, not, ◌&&◌, inl,
  inr, Memᴰ,
}
use pruebas_personalizadas.Prelude.Tests.{
  nat_beq, Bool-cases, Option-cases, some-injective, not-true,
}
use pruebas_personalizadas.Prelude.Eq.{◌==◌, bool_eq, beq_refl, string_eq, nat_eq, list_eq}
use pruebas_personalizadas.Prelude.Lists.{any-false, map-mem}
use pruebas_personalizadas.Prelude.Sets.{Nodup-snoc}
use pruebas_personalizadas.Prelude.Floats.{Floats}
use pruebas_personalizadas.Contracts.Enums.{
  cognitive_operation_eq, difficulty_band_eq, anchor_structure_eq, response_format_eq,
}
use pruebas_personalizadas.Contracts.Planning.{QuestionOpportunity}
use pruebas_personalizadas.Planning.Scores.{same_opportunity}
use pruebas_personalizadas.Planning.Build.{
  is_in, first_compatible, keep_classes, fill, reserve_of, classes_of,
}
use pruebas_personalizadas.Planning.Build.Reserved.{
  Within, Within-snoc, mem-first_compatible, keep_classes-Within,
}
use pruebas_personalizadas.Planning.Build.Distinct.{id_of, Nodup-map-take}

map-append : {A B : Type 0} (f : A → B) (xs ys : List A) → map f (xs ++ ys) ≡ map f xs ++ map f ys
map-append f [] ys = refl
map-append f (x ∷ xs) ys = ap (λ l. f x ∷ l) (map-append f xs ys)

and-right : (a b : Bool) → (a && b) ≡ true → b ≡ true
and-right true b h = h
and-right false b h = cc

module _ {F : Type 0} (fl : Floats F) where
  same_opportunity_refl : (o : QuestionOpportunity F) → same_opportunity fl o o ≡ true
  unfolding same_opportunity
  same_opportunity_refl o =
      rw
        (
          beq_refl o.opportunity_id,
          beq_refl o.opportunity_template_id,
          beq_refl o.submission_id,
          beq_refl o.dimension_id,
          beq_refl o.variant_id,
          beq_refl o.evidence_ids,
          beq_refl o.cognitive_operation,
          beq_refl o.focus,
          beq_refl o.observable,
          beq_refl o.difficulty,
          beq_refl o.target_minutes,
          beq_refl o.allowed_anchor_structures,
          beq_refl o.allowed_response_formats,
          fl.same_refl o.activity_priority,
          fl.same_refl o.evidence_fit,
          fl.same_refl o.opportunity_quality,
          beq_refl o.student_justification_required,
        )
        refl

  -- Opportunities of the pool with one identifier are one.
  module _ (pool : List (QuestionOpportunity F))
      (one : (a b : QuestionOpportunity F)
        → Memᴰ a pool
        → Memᴰ b pool
        → id_of a ≡ id_of b
        → a ≡ b) where
    fresh-id :
        (o : QuestionOpportunity F) (reserve : List (QuestionOpportunity F))
        → Memᴰ o pool
        → Within fl reserve pool
        → is_in fl o reserve ≡ false
        → ¬ Memᴰ (id_of o) (map id_of reserve)
    fresh-id o reserve m within out n =
        let (r, k, e) = map-mem id_of reserve n in
        let same : o ≡ r = one o r m (within r k) e in
        cc (
          any-false (λ i. same_opportunity fl i o) reserve out r k,
          subst (λ x. same_opportunity fl x o ≡ true) same (same_opportunity_refl o),
        )

    added-once :
        (o : QuestionOpportunity F) (reserve : List (QuestionOpportunity F))
        → Memᴰ o pool
        → Within fl reserve pool
        → Nodup (map id_of reserve)
        → is_in fl o reserve ≡ false
        → Nodup (map id_of (reserve ++ o ∷ []))
    added-once o reserve m within once out =
        subst Nodup (sym (map-append id_of reserve (o ∷ [])))
          (Nodup-snoc (map id_of reserve) (id_of o) once (fresh-id o reserve m within out))

    first_compatible-out :
        (flag : Bool) (reserve candidates : List (QuestionOpportunity F))
        {o : QuestionOpportunity F}
        → first_compatible fl flag reserve candidates ≡ some o
        → is_in fl o reserve ≡ false
    unfolding first_compatible
    first_compatible-out flag reserve [] h = cc
    first_compatible-out flag reserve (c ∷ cs) {o} h =
        elim (Bool-cases (c.student_justification_required == flag && not (is_in fl c reserve))) [
          | inl t ↦
              let e : c ≡ o = some-injective (rw (t, first_compatible) at h) in
              subst (λ x. is_in fl x reserve ≡ false) e (not-true (and-right _ _ t))
          | inr f ↦ first_compatible-out flag reserve cs (rw (f, first_compatible) at h)
        ]

    keep_classes-once :
        (flags : List Bool) (reserve : List (QuestionOpportunity F))
        → Within fl reserve pool
        → Nodup (map id_of reserve)
        → Nodup (map id_of (keep_classes fl flags pool reserve))
    unfolding keep_classes
    keep_classes-once [] reserve within once = once
    keep_classes-once (flag ∷ flags) reserve within once =
        elim (Option-cases (first_compatible fl flag reserve pool)) [
          | inl lost ↦ rw (lost, keep_classes) (keep_classes-once flags reserve within once)
          | inr (o, found) ↦
              let m = mem-first_compatible fl flag reserve pool found in
              rw (found, keep_classes)
                (keep_classes-once flags (reserve ++ o ∷ [])
                  (Within-snoc fl reserve pool o within m)
                  (added-once o reserve m within once
                    (first_compatible-out flag reserve pool found)))
        ]

    fill-once :
        (candidates reserve : List (QuestionOpportunity F))
        → Within fl candidates pool
        → Within fl reserve pool
        → Nodup (map id_of reserve)
        → Nodup (map id_of (fill fl candidates reserve))
    unfolding fill
    fill-once [] reserve all within once = once
    fill-once (o ∷ os) reserve all within once = elim (Bool-cases (is_in fl o reserve)) [
      | inl t ↦ rw (t, fill) (fill-once os reserve (λ p m. all p (Memᴰ.tail m)) within once)
      | inr f ↦
          rw (f, fill)
            (fill-once os (reserve ++ o ∷ []) (λ p m. all p (Memᴰ.tail m))
              (Within-snoc fl reserve pool o within (all o (Memᴰ.head refl)))
              (added-once o reserve (all o (Memᴰ.head refl)) within once f))
    ]

    pub reserve_of-once :
        (max_reserve : ℕ) (primary : List (QuestionOpportunity F))
        → Nodup (map id_of (reserve_of fl max_reserve primary pool))
    unfolding reserve_of
    reserve_of-once max_reserve primary = elim (Bool-cases (nat_beq max_reserve 0)) [
      | inl t ↦ rw (t, reserve_of) Nodup-nil
      | inr f ↦
          rw (f, reserve_of)
            (Nodup-map-take id_of max_reserve _ (
              fill-once pool (keep_classes fl (classes_of primary) pool []) (λ p m. m)
                (keep_classes-Within fl (classes_of primary) pool [] (λ p m. elim m [ ]))
                (keep_classes-once (classes_of primary) [] (λ p m. elim m [ ]) Nodup-nil)))
    ]
