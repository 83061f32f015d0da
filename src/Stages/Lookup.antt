-- ===== src/Stages/Lookup.antt =====
-- The rows that a test finds in a table of stage runs.
use pruebas_personalizadas.Prelude.Common.{
  ◌≡◌, refl, sym, ap, subst, ◌∙◌, String, none, some, List, [], ◌∷◌, Bool, true, false, not, inl,
  inr, Memᴰ,
}
use pruebas_personalizadas.Prelude.Tests.{
  is_some, Bool-cases, if-true, some-injective, if-false, and-true, and-eq-true,
}
use pruebas_personalizadas.Prelude.Eq.{◌==◌, string_eq, option_eq, eq_of_true, beq_refl}
use pruebas_personalizadas.Stages.{
  StageStatus, stage_status_eq, StageRunRow, StageCall, stage_row, first_where, is_indexed,
  is_success_of, shares_key,
}

module _ {O : Type 0} where
  pub first_where-mem :
      (p : StageRunRow O → Bool) (rows : List (StageRunRow O)) {row : StageRunRow O}
      → first_where p rows ≡ some row
      → Memᴰ row rows
  unfolding first_where
  first_where-mem p [] h = cc h
  first_where-mem p (x ∷ rows) {row} h = elim (Bool-cases (p x)) [
    | inl t ↦
        subst (λ (r : StageRunRow O). Memᴰ r (x ∷ rows)) (some-injective (sym (if-true _ _ t) ∙ h))
          (Memᴰ.head refl)
    | inr f ↦ Memᴰ.tail (first_where-mem p rows (sym (if-false _ _ f) ∙ h))
  ]

  pub first_where-true :
      (p : StageRunRow O → Bool) (rows : List (StageRunRow O)) {row : StageRunRow O}
      → first_where p rows ≡ some row
      → p row ≡ true
  unfolding first_where
  first_where-true p [] h = cc h
  first_where-true p (x ∷ rows) {row} h = elim (Bool-cases (p x)) [
    | inl t ↦ subst (λ (r : StageRunRow O). p r ≡ true) (some-injective (sym (if-true _ _ t) ∙ h)) t
    | inr f ↦ first_where-true p rows (sym (if-false _ _ f) ∙ h)
  ]

  pub first_where-none :
      (p : StageRunRow O → Bool) (rows : List (StageRunRow O)) {row : StageRunRow O}
      → first_where p rows ≡ none
      → Memᴰ row rows
      → p row ≡ false
  unfolding first_where
  first_where-none p [] h m = elim m [ ]
  first_where-none p (x ∷ rows) h m = elim (Bool-cases (p x)) [
    | inl t ↦ cc (sym (if-true _ _ t) ∙ h)
    | inr f ↦ elim m [
      | Memᴰ.head e ↦ ap p e ∙ f
      | Memᴰ.tail k ↦ first_where-none p rows (sym (if-false _ _ f) ∙ h) k
    ]
  ]

  pub first_where-only :
      (p : StageRunRow O → Bool) (rows : List (StageRunRow O)) (row : StageRunRow O)
      → p row ≡ true
      → Memᴰ row rows
      → ((other : StageRunRow O) → Memᴰ other rows → p other ≡ true → other ≡ row)
      → first_where p rows ≡ some row
  unfolding first_where
  first_where-only p [] row t m only = elim m [ ]
  first_where-only p (x ∷ rows) row t m only = elim (Bool-cases (p x)) [
    | inl y ↦ if-true _ _ y ∙ ap some (only x (Memᴰ.head refl) y)
    | inr n ↦ if-false _ _ n ∙ elim m [
      | Memᴰ.head e ↦ cc (t, ap p e, n)
      | Memᴰ.tail k ↦ first_where-only p rows row t k (λ other m. only other (Memᴰ.tail m))
    ]
  ]

  success-IsIndexed :
      (call : StageCall O) (row : StageRunRow O)
      → is_success_of call row ≡ true
      → (row.stage_key ≡ call.stage_key) × (is_indexed row ≡ true)
  success-IsIndexed call row h =
      let (h1, digest) = and-true {b = is_some row.output_hash} h in
      let (h2, version) = and-true {b = row.component_version == some call.component_version} h1 in
      let (h3, status) = and-true {b = row.status == StageStatus.succeeded} h2 in
      let (_, key) = and-true {b = row.stage_key == call.stage_key} h3 in
      (
        eq_of_true key,
        and-eq-true
            (and-eq-true status (ap is_some {x = row.component_version} (eq_of_true version)))
            digest,
      )

  -- Two successes of one call share its key.
  pub success-shares :
      (call : StageCall O) (row other : StageRunRow O)
      → is_success_of call row ≡ true
      → is_success_of call other ≡ true
      → (other.id == row.id) ≡ false
      → shares_key row other ≡ true
  success-shares call row other h k new =
      let (key, indexed) = success-IsIndexed call row h in
      let (other_key, other_indexed) = success-IsIndexed call other k in
      and-eq-true (and-eq-true (and-eq-true (ap not new) indexed) other_indexed)
        (ap (λ (k : String). k == row.stage_key) (other_key ∙ sym key) ∙ beq_refl row.stage_key)
