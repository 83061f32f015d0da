-- ===== src/Prelude/Sets.antt =====
-- Python's sets and membership tests as Boolean functions over lists: `mem` is `in`, `subset` is
-- `issubset`, and `distinct` has the elements of `set(xs)` once each. `get` is the lookup in a
-- dictionary comprehension `{key(x): x for x in xs}`, where the last entry of a key wins.
use Prim.Native.Nat.{suc, ◌≤◌}
use mathlib.Core.Path.{◌≡◌, refl, sym, ap, subst, ◌∙◌}
use mathlib.Core.Logic.{◌≢◌, ◌⊎◌, inl, inr, ∥∥₁_elim}
use mathlib.Core.HLevel.{⊥_prop}
use mathlib.Core.Bool.{Bool, true, false, not, ◌||◌}
use mathlib.Core.Option.{Option, none, some}
use mathlib.Core.List.{List, [], ◌∷◌, ◌++◌, map, Memᴰ, Nodup, Nodup-nil, Nodup-cons, not-mem-nil}
use native.Mathlib.Omega.{arith}
use pruebas_personalizadas.Prelude.Tests.{if◌then◌else◌, nat_beq, is_some, Bool-cases, Option-cases}
use pruebas_personalizadas.Prelude.Eq.{Eq, ◌==◌}
use pruebas_personalizadas.Prelude.Lists.{length, all, all-mem, all-eq-true, mem-map, mem-append}

-- Membership in every element: the meaning of `issubset`.
abbrev pub IsSubset {ℓ} : {A : Type ℓ} → List A → List A → Type ℓ
IsSubset {A = A} xs ys = (a : A) → Memᴰ a xs → Memᴰ a ys

module _ {ℓ} {A : Type ℓ} where
  pub Nodup-snoc : (xs : List A) (a : A) → Nodup xs → ¬ Memᴰ a xs → Nodup (xs ++ a ∷ [])
  Nodup-snoc [] a once fresh = Nodup-cons.1 (not-mem-nil, Nodup-nil)
  Nodup-snoc (x ∷ xs) a once fresh =
      let (out, rest) = Nodup-cons.0 once in
      Nodup-cons.1 (
        λ m. ∥∥₁_elim m ⊥_prop λ k. elim (mem-append xs (a ∷ []) k) [
          | inl n ↦ out ∣ n ∣₁
          | inr (Memᴰ.head e) ↦ fresh (Memᴰ.head (sym e))
          | inr (Memᴰ.tail n) ↦ elim n [ ]
        ],
        Nodup-snoc xs a rest (λ m. fresh (Memᴰ.tail m)),
      )

module _ {ℓ} {A : Type ℓ} ⦃e : Eq A⦄ where
  unfoldable pub mem : A → List A → Bool
  mem a [] = false
  mem a (x ∷ xs) = a == x || mem a xs

  unfoldable pub subset : List A → List A → Bool
  subset xs ys = all (λ x. mem x ys) xs

  -- `set(xs) == set(ys)`
  unfoldable pub same_set : List A → List A → Bool
  same_set xs ys = if subset xs ys then subset ys xs else false

  unfoldable pub distinct : List A → List A
  distinct [] = []
  distinct (x ∷ xs) = if mem x xs then distinct xs else x ∷ distinct xs

  -- `len(xs) != len(set(xs))`
  unfoldable pub has_duplicates : List A → Bool
  has_duplicates xs = not (nat_beq (length xs) (length (distinct xs)))

  pub mem-true : (a : A) (xs : List A) → mem a xs ≡ true → Memᴰ a xs
  unfolding mem
  mem-true a [] h = cc
  mem-true a (x ∷ xs) h = elim (Bool-cases (a == x)) [
    | inl t ↦ Memᴰ.head ((e.beq_iff a x).0 t)
    | inr f ↦ Memᴰ.tail (mem-true a xs (rw f at h))
  ]

  pub mem-eq-true : {a : A} (xs : List A) → Memᴰ a xs → mem a xs ≡ true
  unfolding mem
  mem-eq-true [] m = elim m [ ]
  mem-eq-true {a} (x ∷ xs) (Memᴰ.head p) = rw ((e.beq_iff a x).1 p)
  mem-eq-true {a} (x ∷ xs) (Memᴰ.tail m) = ground (arith, mem-eq-true xs m)

  pub mem-false : {a : A} (xs : List A) → mem a xs ≡ false → ¬ Memᴰ a xs
  mem-false {a} xs h m = cc (mem-eq-true xs m)

  pub subset-true : (xs ys : List A) → subset xs ys ≡ true → IsSubset xs ys
  unfolding subset
  subset-true xs ys h a m = mem-true a ys (all-mem (λ x. mem x ys) xs h a m)

  pub subset-eq-true : (xs ys : List A) → IsSubset xs ys → subset xs ys ≡ true
  unfolding subset
  subset-eq-true xs ys h = all-eq-true (λ x. mem x ys) xs (λ a m. mem-eq-true ys (h a m))

  pub same_set-true : (xs ys : List A) → same_set xs ys ≡ true → IsSubset xs ys × IsSubset ys xs
  unfolding same_set
  same_set-true xs ys h = (subset-true xs ys (ground arith), subset-true ys xs (ground arith))

  pub same_set-eq-true : (xs ys : List A) → IsSubset xs ys → IsSubset ys xs → same_set xs ys ≡ true
  unfolding same_set
  same_set-eq-true xs ys h k = rw (subset-eq-true xs ys h) (subset-eq-true ys xs k)

  length-distinct-le : (xs : List A) → length (distinct xs) ≤ length xs
  unfolding distinct
  length-distinct-le [] = omega arith
  length-distinct-le (x ∷ xs) = ground (arith, length-distinct-le xs)

  not_mem : {a : A} (xs : List A) → mem a xs ≡ false → ¬ ∥ Memᴰ a xs ∥₁
  not_mem xs h m = ∥∥₁_elim m ⊥_prop (mem-false xs h)

  length-distinct-Nodup : (xs : List A) → length (distinct xs) ≡ length xs → Nodup xs
  unfolding distinct
  length-distinct-Nodup [] h = Nodup-nil
  length-distinct-Nodup (x ∷ xs) h = elim (Bool-cases (mem x xs)) [
    | inl t ↦ absurd (ground (arith, length-distinct-le xs))
    | inr f ↦ Nodup-cons.1 (not_mem xs f, length-distinct-Nodup xs (ground arith))
  ]

  pub Nodup-length-distinct : (xs : List A) → Nodup xs → length (distinct xs) ≡ length xs
  unfolding distinct
  Nodup-length-distinct [] h = refl
  Nodup-length-distinct (x ∷ xs) h = elim (Bool-cases (mem x xs)) [
    | inl t ↦ absurd ((Nodup-cons.0 h).0 ∣ mem-true x xs t ∣₁)
    | inr f ↦ rw f (ap suc (Nodup-length-distinct xs (Nodup-cons.0 h).1))
  ]

  mem-distinct : (xs : List A) {a : A} → Memᴰ a (distinct xs) → Memᴰ a xs
  unfolding distinct
  mem-distinct [] m = elim m [ ]
  mem-distinct (x ∷ xs) {a} m = go (mem x xs) m (mem-distinct xs)
    where
      go :
          (b : Bool)
          → Memᴰ a (if b then distinct xs else x ∷ distinct xs)
          → (Memᴰ a (distinct xs) → Memᴰ a xs)
          → Memᴰ a (x ∷ xs)
      go true k later = Memᴰ.tail (later k)
      go false (Memᴰ.head p) later = Memᴰ.head p
      go false (Memᴰ.tail k) later = Memᴰ.tail (later k)

  first_mem : (xs : List A) → 1 ≤ length xs → (a : A) × Memᴰ a xs
  first_mem [] h = absurd (omega arith)
  first_mem (x ∷ xs) h = (x, Memᴰ.head refl)

  -- Two distinct elements, where there are two.
  pub distinct_two :
      (xs : List A) → 2 ≤ length (distinct xs) → (a : A) × (b : A) × Memᴰ a xs × Memᴰ b xs × (a ≢ b)
  unfolding distinct
  distinct_two [] h = absurd (omega arith)
  distinct_two (x ∷ xs) h = elim (Bool-cases (mem x xs)) [
    | inl t ↦
        let (a, b, ma, mb, differ) = distinct_two xs (rw t at h) in
        (a, b, Memᴰ.tail ma, Memᴰ.tail mb, differ)
    | inr f ↦
        let (b, m) = first_mem (distinct xs) (ground arith) in
        let k = mem-distinct xs m in
        (
          x,
          b,
          Memᴰ.head refl,
          Memᴰ.tail k,
          λ same. mem-false xs f (subst (λ y. Memᴰ y xs) (sym same) k),
        )
  ]

  pub has_duplicates-false : (xs : List A) → has_duplicates xs ≡ false → Nodup xs
  unfolding has_duplicates
  has_duplicates-false xs h = length-distinct-Nodup xs (ground arith)

  pub has_duplicates-eq-false : (xs : List A) → Nodup xs → has_duplicates xs ≡ false
  unfolding has_duplicates
  has_duplicates-eq-false xs h = ground (arith, Nodup-length-distinct xs h)

module _ {ℓ κ} {A : Type ℓ} {K : Type κ} ⦃e : Eq K⦄ (key : A → K) where
  unfoldable pub get : K → List A → Option A
  get k [] = none
  get k (x ∷ xs) = elim (get k xs) [ some y ↦ some y | none ↦ if key x == k then some x else none ]

  -- What a lookup finds is an entry with that key.
  pub get-some : (k : K) (xs : List A) {x : A} → get k xs ≡ some x → Memᴰ x xs × (key x ≡ k)
  unfolding get
  get-some k [] h = cc
  get-some k (y ∷ xs) {x} h = elim (Option-cases (get k xs)) [
    | inl missing ↦ here missing (Bool-cases (key y == k))
    | inr (z, found) ↦
        let t : Memᴰ x xs × (key x ≡ k) = get-some k xs (ground arith) in (Memᴰ.tail t.0, t.1)
  ]
    where
      here :
          get k xs ≡ none
          → ((key y == k) ≡ true) ⊎ ((key y == k) ≡ false)
          → Memᴰ x (y ∷ xs) × (key x ≡ k)
      here missing (inl t) =
          let same : y ≡ x = ground arith in
          (Memᴰ.head (sym same), ap key (sym same) ∙ (e.beq_iff (key y) k).0 t)
      here missing (inr f) = ground arith

  -- A key that an entry has is found.
  pub get-mem : (k : K) (xs : List A) → Memᴰ k (map key xs) → is_some (get k xs) ≡ true
  unfolding get
  get-mem k [] m = elim m [ ]
  get-mem k (x ∷ xs) (Memᴰ.head p) = ground (arith, e.beq_iff (key x) k)
  get-mem k (x ∷ xs) (Memᴰ.tail m) = ground (arith, get-mem k xs m)

  pub get-some_mem : (k : K) (xs : List A) → is_some (get k xs) ≡ true → Memᴰ k (map key xs)
  get-some_mem k xs h = elim (Option-cases (get k xs)) [
    | inl missing ↦ ground arith
    | inr (x, found) ↦
        let (m, p) = get-some k xs found in subst (λ j. Memᴰ j (map key xs)) p (mem-map key xs m)
  ]
