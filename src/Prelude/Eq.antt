-- ===== src/Prelude/Eq.antt =====
-- Python's `==` as an interface with the law that it decides equality of values.
use Prim.Native.Nat.{ℕ}
use Prim.Native.String.{String}
use mathlib.Core.Path.{◌≡◌, refl}
use mathlib.Core.Logic.{◌↔◌}
use mathlib.Core.Bool.{Bool, true, false, not, ◌&&◌}
use mathlib.Core.Option.{Option, none, some}
use mathlib.Core.List.{List, [], ◌∷◌}
use native.Mathlib.Omega.{arith}
use text.Mathlib.Text.{◌==◌ as str_eq}
use text.Mathlib.TextEquality.{eq_iff}
use pruebas_personalizadas.Prelude.Tests.{nat_beq, nat_beq_iff}

pub record Eq {ℓ} (A : Type ℓ) : Type ℓ where
  pub beq : A → A → Bool
  pub beq_iff : (a b : A) → (beq a b ≡ true) ↔ (a ≡ b)

-- An enumeration is compared by its decision procedure.
abbrev decides {ℓ} : {P : Type ℓ} → Dec P → Bool
decides (yes p) = true
decides (no n) = false

pub decides_iff {ℓ} : {P : Type ℓ} (d : Dec P) → (decides d ≡ true) ↔ P
decides_iff (yes p) = (λ _. p, λ _. refl)
decides_iff (no n) = (λ e. cc, λ p. absurd (n p))

infix 50 ◌==◌
abbrev pub ◌==◌ {ℓ} : {A : Type ℓ} ⦃e : Eq A⦄ → A → A → Bool
◌==◌ ⦃e⦄ = e.beq

abbrev bool_beq : Bool → Bool → Bool
bool_beq true b = b
bool_beq false true = false
bool_beq false false = true

pub bool_beq_iff : (a b : Bool) → (bool_beq a b ≡ true) ↔ (a ≡ b)
bool_beq_iff a b = ground arith

instance abbrev pub nat_eq : Eq ℕ
nat_eq = record { beq = nat_beq; beq_iff = nat_beq_iff }

instance abbrev pub bool_eq : Eq Bool
bool_eq = record { beq = bool_beq; beq_iff = bool_beq_iff }

instance abbrev pub string_eq : Eq String
string_eq = record { beq = str_eq; beq_iff = eq_iff }

abbrev pub eq_of {ℓ} : {A : Type ℓ} → Discrete A → Eq A
eq_of d = record { beq = λ a b. decides (d a b); beq_iff = λ a b. decides_iff (d a b) }

module _ {ℓ} {A : Type ℓ} ⦃e : Eq A⦄ where
  pub beq_refl : (a : A) → (a == a) ≡ true
  beq_refl a = (e.beq_iff a a).1 refl

  pub eq_of_not-ne : (a b : A) → not (a == b) ≡ false → a ≡ b
  eq_of_not-ne a b h = (e.beq_iff a b).0 (ground arith)

  pub eq_of_true : {a b : A} → (a == b) ≡ true → a ≡ b
  eq_of_true {a} {b} h = (e.beq_iff a b).0 h

  pub ne_of_false : {a b : A} → (a == b) ≡ false → ¬ (a ≡ b)
  ne_of_false {a} {b} h p = cc ((e.beq_iff a b).1 p)

  pub not-ne_of_eq : (a b : A) → a ≡ b → not (a == b) ≡ false
  not-ne_of_eq a b h = rw ((e.beq_iff a b).1 h)

  abbrev option_beq : Option A → Option A → Bool
  option_beq none none = true
  option_beq none (some b) = false
  option_beq (some a) none = false
  option_beq (some a) (some b) = a == b

  pub option_beq_iff : (a b : Option A) → (option_beq a b ≡ true) ↔ (a ≡ b)
  option_beq_iff none none = (λ _. refl, λ _. refl)
  option_beq_iff none (some b) = (λ h. cc, λ h. cc)
  option_beq_iff (some a) none = (λ h. cc, λ h. cc)
  option_beq_iff (some a) (some b) = (λ h. cc ((e.beq_iff a b).0 h), λ h. (e.beq_iff a b).1 (cc))

  instance abbrev pub option_eq : Eq (Option A)
  option_eq = record { beq = option_beq; beq_iff = option_beq_iff }

  abbrev list_beq : List A → List A → Bool
  list_beq [] [] = true
  list_beq [] (b ∷ bs) = false
  list_beq (a ∷ xs) [] = false
  list_beq (a ∷ xs) (b ∷ bs) = a == b && list_beq xs bs

  pub list_beq_iff : (xs ys : List A) → (list_beq xs ys ≡ true) ↔ (xs ≡ ys)
  list_beq_iff [] [] = (λ _. refl, λ _. refl)
  list_beq_iff [] (b ∷ bs) = (λ h. cc, λ h. cc)
  list_beq_iff (a ∷ xs) [] = (λ h. cc, λ h. cc)
  list_beq_iff (a ∷ xs) (b ∷ bs) = (
    λ h. ground (arith, e.beq_iff a b, list_beq_iff xs bs),
    λ h. ground (arith, e.beq_iff a b, list_beq_iff xs bs),
  )

  instance abbrev pub list_eq : Eq (List A)
  list_eq = record { beq = list_beq; beq_iff = list_beq_iff }

module _ {ℓ κ} {A : Type ℓ} {B : Type κ} ⦃e : Eq A⦄ ⦃f : Eq B⦄ where
  abbrev pair_beq : A × B → A × B → Bool
  pair_beq (a, b) (c, d) = e.beq a c && f.beq b d

  pub pair_beq_iff : (p q : A × B) → (pair_beq p q ≡ true) ↔ (p ≡ q)
  pair_beq_iff (a, b) (c, d) = (
    λ h. ground (arith, e.beq_iff a c, f.beq_iff b d),
    λ h. ground (arith, e.beq_iff a c, f.beq_iff b d),
  )

  instance abbrev pub pair_eq : Eq (A × B)
  pair_eq = record { beq = pair_beq; beq_iff = pair_beq_iff }
