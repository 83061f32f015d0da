-- ===== src/Prelude/Lists.antt =====
-- Lists measured by native numbers, comprehensions, and `any` and `all`, with their laws.
use Prim.Native.Nat.{ℕ, zero, suc, ◌+◌, ◌≤◌}
use mathlib.Core.Path.{◌≡◌, refl, sym, ap, ◌∙◌}
use mathlib.Core.Logic.{◌⊎◌, inl, inr}
use mathlib.Core.Bool.{Bool, true, false, ◌&&◌, ◌||◌}
use mathlib.Core.Option.{Option, none, some}
use mathlib.Core.List.{List, [], ◌∷◌, ◌++◌, map, Memᴰ}
use native.Mathlib.Omega.{arith}
use pruebas_personalizadas.Prelude.Tests.{if◌then◌else◌, Bool-cases}

module _ {ℓ} {A : Type ℓ} where
  abbrev pub length : List A → ℕ
  length [] = 0
  length (x ∷ xs) = suc (length xs)

  abbrev pub get_elem? : List A → ℕ → Option A
  get_elem? [] i = none
  get_elem? (x ∷ xs) zero = some x
  get_elem? (x ∷ xs) (suc i) = get_elem? xs i

  abbrev pub take : ℕ → List A → List A
  take zero xs = []
  take (suc n) [] = []
  take (suc n) (x ∷ xs) = x ∷ take n xs

  abbrev pub drop : ℕ → List A → List A
  drop zero xs = xs
  drop (suc n) [] = []
  drop (suc n) (x ∷ xs) = drop n xs

  pub List-cases : (xs : List A) → (xs ≡ []) ⊎ ((y : A) × (ys : List A) × (xs ≡ y ∷ ys))
  List-cases [] = inl refl
  List-cases (x ∷ xs) = inr (x, xs, refl)

  pub length-append : (xs ys : List A) → length (xs ++ ys) ≡ length xs + length ys
  length-append [] ys = omega arith
  length-append (x ∷ xs) ys = omega (arith, length-append xs ys)

  pub length-take-le : (n : ℕ) (xs : List A) → length (take n xs) ≤ n
  length-take-le zero xs = omega arith
  length-take-le (suc n) [] = omega arith
  length-take-le (suc n) (x ∷ xs) = omega (arith, length-take-le n xs)

  pub mem-take : (n : ℕ) (xs : List A) {a : A} → Memᴰ a (take n xs) → Memᴰ a xs
  mem-take zero xs m = elim m [ ]
  mem-take (suc n) [] m = elim m [ ]
  mem-take (suc n) (x ∷ xs) (Memᴰ.head e) = Memᴰ.head e
  mem-take (suc n) (x ∷ xs) (Memᴰ.tail m) = Memᴰ.tail (mem-take n xs m)

  -- `any(p(x) for x in xs)` and `all(p(x) for x in xs)`.
  unfoldable pub any : (A → Bool) → List A → Bool
  any p [] = false
  any p (x ∷ xs) = p x || any p xs

  unfoldable pub all : (A → Bool) → List A → Bool
  all p [] = true
  all p (x ∷ xs) = p x && all p xs

  -- `[x for x in xs if p(x)]`
  unfoldable pub filter : (A → Bool) → List A → List A
  filter p [] = []
  filter p (x ∷ xs) = if p x then x ∷ filter p xs else filter p xs

  pub any-false :
      (p : A → Bool) (xs : List A) → any p xs ≡ false → (x : A) → Memᴰ x xs → p x ≡ false
  unfolding any
  any-false p [] h x m = elim m [ ]
  any-false p (y ∷ xs) h x (Memᴰ.head e) = ap p e ∙ ground arith
  any-false p (y ∷ xs) h x (Memᴰ.tail m) = any-false p xs (ground arith) x m

  pub any-eq-false :
      (p : A → Bool) (xs : List A) → ((x : A) → Memᴰ x xs → p x ≡ false) → any p xs ≡ false
  unfolding any
  any-eq-false p [] h = refl
  any-eq-false p (y ∷ xs) h =
      rw (h y (Memᴰ.head refl)) (any-eq-false p xs (λ x m. h x (Memᴰ.tail m)))

  pub any-true : (p : A → Bool) (xs : List A) → any p xs ≡ true → (x : A) × Memᴰ x xs × (p x ≡ true)
  unfolding any
  any-true p [] h = cc
  any-true p (y ∷ xs) h = elim (Bool-cases (p y)) [
    | inl e ↦ (y, Memᴰ.head refl, e)
    | inr e ↦ let (x, m, t) = any-true p xs (rw e at h) in (x, Memᴰ.tail m, t)
  ]

  pub all-mem : (p : A → Bool) (xs : List A) → all p xs ≡ true → (x : A) → Memᴰ x xs → p x ≡ true
  unfolding all
  all-mem p [] h x m = elim m [ ]
  all-mem p (y ∷ xs) h x (Memᴰ.head e) = ap p e ∙ ground arith
  all-mem p (y ∷ xs) h x (Memᴰ.tail m) = all-mem p xs (ground arith) x m

  pub all-eq-true :
      (p : A → Bool) (xs : List A) → ((x : A) → Memᴰ x xs → p x ≡ true) → all p xs ≡ true
  unfolding all
  all-eq-true p [] h = refl
  all-eq-true p (y ∷ xs) h = rw (h y (Memᴰ.head refl)) (all-eq-true p xs (λ x m. h x (Memᴰ.tail m)))

  -- The head of a filtered list, or an element of its tail.
  pub mem_if :
      (b : Bool) {y x : A} (ys : List A)
      → Memᴰ x (if b then y ∷ ys else ys)
      → ((b ≡ true) × (x ≡ y)) ⊎ Memᴰ x ys
  mem_if true ys (Memᴰ.head e) = inl (refl, e)
  mem_if true ys (Memᴰ.tail m) = inr m
  mem_if false ys m = inr m

  if-mem_tail :
      (b : Bool) (y : A) {x : A} (ys : List A) → Memᴰ x ys → Memᴰ x (if b then y ∷ ys else ys)
  if-mem_tail true y ys m = Memᴰ.tail m
  if-mem_tail false y ys m = m

  pub mem-filter :
      (p : A → Bool) (xs : List A) {x : A} → Memᴰ x (filter p xs) → Memᴰ x xs × (p x ≡ true)
  unfolding filter
  mem-filter p [] m = elim m [ ]
  mem-filter p (y ∷ xs) m = elim (mem_if (p y) (filter p xs) m) [
    | inl (t, e) ↦ (Memᴰ.head e, ap p e ∙ t)
    | inr n ↦ let (k, t) = mem-filter p xs n in (Memᴰ.tail k, t)
  ]

  pub filter-mem :
      (p : A → Bool) (xs : List A) {x : A} → Memᴰ x xs → p x ≡ true → Memᴰ x (filter p xs)
  unfolding filter
  filter-mem p [] m t = elim m [ ]
  filter-mem p (y ∷ xs) {x} (Memᴰ.head e) t =
      let h : p y ≡ true = ap p (sym e) ∙ t in rw h (Memᴰ.head e)
  filter-mem p (y ∷ xs) (Memᴰ.tail m) t = if-mem_tail (p y) y (filter p xs) (filter-mem p xs m t)

  pub mem-append : (xs ys : List A) {x : A} → Memᴰ x (xs ++ ys) → Memᴰ x xs ⊎ Memᴰ x ys
  mem-append [] ys m = inr m
  mem-append (y ∷ xs) ys (Memᴰ.head e) = inl (Memᴰ.head e)
  mem-append (y ∷ xs) ys (Memᴰ.tail m) = elim (mem-append xs ys m) [
    | inl k ↦ inl (Memᴰ.tail k)
    | inr k ↦ inr k
  ]

  pub append-mem_left : (xs ys : List A) {x : A} → Memᴰ x xs → Memᴰ x (xs ++ ys)
  append-mem_left [] ys m = elim m [ ]
  append-mem_left (y ∷ xs) ys (Memᴰ.head e) = Memᴰ.head e
  append-mem_left (y ∷ xs) ys (Memᴰ.tail m) = Memᴰ.tail (append-mem_left xs ys m)

  pub append-mem_right : (xs ys : List A) {x : A} → Memᴰ x ys → Memᴰ x (xs ++ ys)
  append-mem_right [] ys m = m
  append-mem_right (y ∷ xs) ys m = Memᴰ.tail (append-mem_right xs ys m)

module _ {ℓ κ} {A : Type ℓ} {B : Type κ} where
  pub mem-map : (f : A → B) (xs : List A) {x : A} → Memᴰ x xs → Memᴰ (f x) (map f xs)
  mem-map f [] m = elim m [ ]
  mem-map f (y ∷ xs) (Memᴰ.head e) = Memᴰ.head (ap f e)
  mem-map f (y ∷ xs) (Memᴰ.tail m) = Memᴰ.tail (mem-map f xs m)

  pub map-mem :
      (f : A → B) (xs : List A) {y : B} → Memᴰ y (map f xs) → (x : A) × Memᴰ x xs × (y ≡ f x)
  map-mem f [] m = elim m [ ]
  map-mem f (x ∷ xs) (Memᴰ.head e) = (x, Memᴰ.head refl, e)
  map-mem f (x ∷ xs) (Memᴰ.tail m) = let (z, k, e) = map-mem f xs m in (z, Memᴰ.tail k, e)

  pub length-map : (f : A → B) (xs : List A) → length (map f xs) ≡ length xs
  length-map f [] = refl
  length-map f (x ∷ xs) = ap suc (length-map f xs)
