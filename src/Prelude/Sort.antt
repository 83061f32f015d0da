-- ===== src/Prelude/Sort.antt =====
-- Python's stable sort by a strict comparison of keys.
use mathlib.Core.List.{Perm}
use mathlib.Core.List.Perm
use pruebas_personalizadas.Prelude.Common.{
  ◌+◌, ◌≡◌, List, [], ◌∷◌, Bool, true, false, Memᴰ, inl, inr, arith,
}
use pruebas_personalizadas.Prelude.Tests.{if◌then◌else◌, Bool-cases}
use pruebas_personalizadas.Prelude.Lists.{length}

module _ {ℓ} {A : Type ℓ} (before : A → A → Bool) where
  unfoldable pub insert : A → List A → List A
  insert x [] = x ∷ []
  insert x (y ∷ ys) = if before y x then y ∷ insert x ys else x ∷ y ∷ ys

  unfoldable pub sort : List A → List A
  unfolding insert
  sort [] = []
  sort (x ∷ xs) = insert x (sort xs)

  length-insert : (x : A) (xs : List A) → length (insert x xs) ≡ length xs + 1
  unfolding insert
  length-insert x [] = omega arith
  length-insert x (y ∷ ys) = ground (arith, length-insert x ys)

  pub length-sort : (xs : List A) → length (sort xs) ≡ length xs
  unfolding sort
  length-sort [] = omega arith
  length-sort (x ∷ xs) = omega (arith, length-insert x (sort xs), length-sort xs)

  insert-perm : (x : A) (xs : List A) → Perm (insert x xs) (x ∷ xs)
  unfolding insert
  insert-perm x [] = Perm.refl (x ∷ [])
  insert-perm x (y ∷ ys) = elim (Bool-cases (before y x)) [
    | inl t ↦ rw (t, insert) (Perm.trans (Perm.cons y (insert-perm x ys)) (Perm.swap x y ys))
    | inr f ↦ rw (f, insert) (Perm.refl (x ∷ y ∷ ys))
  ]

  pub sort-perm : (xs : List A) → Perm (sort xs) xs
  unfolding sort
  sort-perm [] = Perm.refl []
  sort-perm (x ∷ xs) = Perm.trans (insert-perm x (sort xs)) (Perm.cons x (sort-perm xs))

  mem-insert : (x : A) (xs : List A) {a : A} → Memᴰ a (insert x xs) → Memᴰ a (x ∷ xs)
  unfolding insert
  mem-insert x [] m = m
  mem-insert x (y ∷ ys) {a} m = go (before y x) m (mem-insert x ys)
    where
      go :
          (b : Bool)
          → Memᴰ a (if b then y ∷ insert x ys else x ∷ y ∷ ys)
          → (Memᴰ a (insert x ys) → Memᴰ a (x ∷ ys))
          → Memᴰ a (x ∷ y ∷ ys)
      go true (Memᴰ.head e) later = Memᴰ.tail (Memᴰ.head e)
      go true (Memᴰ.tail k) later = elim (later k) [
        | Memᴰ.head e ↦ Memᴰ.head e
        | Memᴰ.tail n ↦ Memᴰ.tail (Memᴰ.tail n)
      ]
      go false k later = k

  pub mem-sort : (xs : List A) {a : A} → Memᴰ a (sort xs) → Memᴰ a xs
  unfolding sort
  mem-sort [] m = m
  mem-sort (x ∷ xs) m = elim (mem-insert x (sort xs) m) [
    | Memᴰ.head e ↦ Memᴰ.head e
    | Memᴰ.tail n ↦ Memᴰ.tail (mem-sort xs n)
  ]

-- A strict order whose incomparable elements are a class each: what a sort needs of its comparison.
pub record IsOrder {ℓ} {A : Type ℓ} (before : A → A → Bool) : Type ℓ where
  pub asym : (a b : A) → before a b ≡ true → before b a ≡ false
  pub later : (a b c : A) → before a b ≡ false → before b c ≡ false → before a c ≡ false

module _ {ℓ} {A : Type ℓ} {before : A → A → Bool} (order : IsOrder before) where
  irrefl : (a : A) → before a a ≡ false
  irrefl a = elim (Bool-cases (before a a)) [ inl t ↦ order.asym a a t | inr f ↦ f ]

  -- No element is before the first.
  abbrev pub IsLed : List A → Type ℓ
  IsLed [] = Unit
  IsLed (m ∷ ms) = (x : A) → Memᴰ x (m ∷ ms) → before x m ≡ false

  insert-IsLed : (x : A) (xs : List A) → IsLed xs → IsLed (insert before x xs)
  unfolding insert
  insert-IsLed x [] led = λ z m. elim m [ Memᴰ.head e ↦ rw e (irrefl x) | Memᴰ.tail k ↦ elim k [ ] ]
  insert-IsLed x (y ∷ ys) led = elim (Bool-cases (before y x)) [
    | inl t ↦ rw (t, if◌then◌else◌) (λ z m. first_kept z t m)
    | inr f ↦ rw (f, if◌then◌else◌) (λ z m. first_new z f m)
  ]
    where
      first_kept :
          (z : A) → before y x ≡ true → Memᴰ z (y ∷ insert before x ys) → before z y ≡ false
      first_kept z t (Memᴰ.head e) = rw e (irrefl y)
      first_kept z t (Memᴰ.tail k) = elim (mem-insert before x ys k) [
        | Memᴰ.head e ↦ rw e (order.asym y x t)
        | Memᴰ.tail n ↦ led z (Memᴰ.tail n)
      ]

      first_new : (z : A) → before y x ≡ false → Memᴰ z (x ∷ y ∷ ys) → before z x ≡ false
      first_new z f (Memᴰ.head e) = rw e (irrefl x)
      first_new z f (Memᴰ.tail k) = order.later z y x (led z k) f

  pub sort-IsLed : (xs : List A) → IsLed (sort before xs)
  unfolding sort
  sort-IsLed [] = tt
  sort-IsLed (x ∷ xs) = insert-IsLed x (sort before xs) (sort-IsLed xs)

module _ {ℓ} {A : Type ℓ} (before : A → A → Bool) where
  insert-mem : (x : A) (xs : List A) {a : A} → Memᴰ a (x ∷ xs) → Memᴰ a (insert before x xs)
  unfolding insert
  insert-mem x [] m = m
  insert-mem x (y ∷ ys) {a} m = go (before y x) m (insert-mem x ys)
    where
      go :
          (b : Bool)
          → Memᴰ a (x ∷ y ∷ ys)
          → (Memᴰ a (x ∷ ys) → Memᴰ a (insert before x ys))
          → Memᴰ a (if b then y ∷ insert before x ys else x ∷ y ∷ ys)
      go false m later = m
      go true (Memᴰ.head e) later = Memᴰ.tail (later (Memᴰ.head e))
      go true (Memᴰ.tail (Memᴰ.head e)) later = Memᴰ.head e
      go true (Memᴰ.tail (Memᴰ.tail n)) later = Memᴰ.tail (later (Memᴰ.tail n))

  -- A sort loses no element.
  pub sort-mem : (xs : List A) {a : A} → Memᴰ a xs → Memᴰ a (sort before xs)
  unfolding sort
  sort-mem [] m = m
  sort-mem (x ∷ xs) (Memᴰ.head e) = insert-mem x (sort before xs) (Memᴰ.head e)
  sort-mem (x ∷ xs) (Memᴰ.tail m) = insert-mem x (sort before xs) (Memᴰ.tail (sort-mem xs m))
