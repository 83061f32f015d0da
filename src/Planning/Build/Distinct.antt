-- ===== src/Planning/Build/Distinct.antt =====
-- The identifiers of a plan are distinct where those of the map are.
use mathlib.Core.List.{Nodup, Nodup-nil, Nodup-cons}
use mathlib.Core.Logic.{∥∥₁_elim}
use mathlib.Core.HLevel.{⊥_prop}
use pruebas_personalizadas.Prelude.Common.{
  ℕ, zero, suc, ◌≡◌, refl, sym, ap, subst, ◌∙◌, String, some, List, [], ◌∷◌, map, Bool, inl, inr,
  Memᴰ,
}
use pruebas_personalizadas.Prelude.Tests.{Bool-cases, some-injective}
use pruebas_personalizadas.Prelude.Lists.{
  length, take, filter, get_elem?, mem-map, map-mem, mem-filter, mem-take,
}
use pruebas_personalizadas.Contracts.Planning.{QuestionOpportunity}
use pruebas_personalizadas.Planning.Scores.{ScoredOpportunity}
use pruebas_personalizadas.Planning.Search.{items_at}
use pruebas_personalizadas.Planning.Build.Reserved.{get_elem?-mem, items_at-some, mem-items_at}

module _ {A : Type 0} (key : A → String) where
  pub Nodup-map-filter :
      (p : A → Bool) (xs : List A) → Nodup (map key xs) → Nodup (map key (filter p xs))
  unfolding filter
  Nodup-map-filter p [] once = Nodup-nil
  Nodup-map-filter p (x ∷ xs) once =
      let (out, rest) = Nodup-cons.0 once in
      let later = Nodup-map-filter p xs rest in
      elim (Bool-cases (p x)) [
        | inl t ↦ rw t (
            Nodup-cons.1 (
              λ m. ∥∥₁_elim m ⊥_prop λ k.
                  let (v, n, e) = map-mem key (filter p xs) k in
                  out
                    ∣ subst (λ i. Memᴰ i (map key xs)) (sym e)
                      (mem-map key xs (mem-filter p xs n).0) ∣₁,
              later,
            ))
        | inr f ↦ rw f later
      ]

  pub Nodup-map-take : (n : ℕ) (xs : List A) → Nodup (map key xs) → Nodup (map key (take n xs))
  Nodup-map-take zero xs once = Nodup-nil
  Nodup-map-take (suc n) [] once = Nodup-nil
  Nodup-map-take (suc n) (x ∷ xs) once =
      let (out, rest) = Nodup-cons.0 once in
      Nodup-cons.1 (
        λ m. ∥∥₁_elim m ⊥_prop λ k.
            let (v, j, e) = map-mem key (take n xs) k in
            out ∣ subst (λ i. Memᴰ i (map key xs)) (sym e) (mem-map key xs (mem-take n xs j)) ∣₁,
        Nodup-map-take n xs rest,
      )

  -- Where keys are distinct, a key stands at one place.
  pub same_index :
      (xs : List A) (i j : ℕ) {a b : A}
      → Nodup (map key xs)
      → get_elem? xs i ≡ some a
      → get_elem? xs j ≡ some b
      → key a ≡ key b
      → i ≡ j
  same_index [] i j once f g e = cc
  same_index (x ∷ xs) zero zero once f g e = refl
  same_index (x ∷ xs) zero (suc j) once f g e = absurd (
      (Nodup-cons.0 once).0
        ∣ subst (λ k. Memᴰ k (map key xs)) (sym (ap key (some-injective f) ∙ e))
          (mem-map key xs (get_elem?-mem xs j g)) ∣₁)
  same_index (x ∷ xs) (suc i) zero once f g e = absurd (
      (Nodup-cons.0 once).0
        ∣ subst (λ k. Memᴰ k (map key xs)) (sym (ap key (some-injective g) ∙ sym e))
          (mem-map key xs (get_elem?-mem xs i f)) ∣₁)
  same_index (x ∷ xs) (suc i) (suc j) once f g e =
      ap suc (same_index xs i j (Nodup-cons.0 once).1 f g e)

abbrev pub id_of : {F : Type 0} → QuestionOpportunity F → String
id_of o = o.opportunity_id

abbrev pub scored_id : {F : Type 0} → ScoredOpportunity F → String
scored_id s = s.opportunity.opportunity_id

module _ {F : Type 0} (scored : List (ScoredOpportunity F))
    (once : Nodup (map scored_id scored)) where
  abbrev InRange : List ℕ → Type 0
  InRange is = (i : ℕ) → Memᴰ i is → (s : ScoredOpportunity F) × (get_elem? scored i ≡ some s)

  pub length-items_at : (is : List ℕ) → InRange is → length (items_at scored is) ≡ length is
  unfolding items_at
  length-items_at [] h = refl
  length-items_at (i ∷ is) h =
      let (s, found) = h i (Memᴰ.head refl) in
      rw (found, items_at) (ap suc (length-items_at is (λ j m. h j (Memᴰ.tail m))))

  pub Nodup-items_at :
      (is : List ℕ) → Nodup is → InRange is → Nodup (map id_of (items_at scored is))
  unfolding items_at
  Nodup-items_at [] distinct h = Nodup-nil
  Nodup-items_at (i ∷ is) distinct h =
      let (s, found) = h i (Memᴰ.head refl) in
      let (out, rest) = Nodup-cons.0 distinct in
      subst (λ os. Nodup (map id_of os)) (sym (items_at-some scored i is found))
        (Nodup-cons.1 (
          λ m. ∥∥₁_elim m ⊥_prop λ k.
              let (o, n, e) = map-mem id_of (items_at scored is) k in
              let (j, t, jm, at, same) = mem-items_at scored is n in
              let ij : i ≡ j =
                same_index scored_id scored i j once found at (e ∙ ap id_of (sym same)) in
              out ∣ subst (λ x. Memᴰ x is) (sym ij) jm ∣₁,
          Nodup-items_at is rest (λ j m. h j (Memᴰ.tail m)),
        ))
