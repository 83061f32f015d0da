-- ===== src/Prelude/Floats.antt =====
-- Python's `float` as far as the program computes with it. Of arithmetic only one law is assumed: the
-- contracts bound every score, so no value is a nan, and a value equals itself.
use Prim.Native.Nat.{ℕ}
use mathlib.Core.Path.{◌≡◌}
use mathlib.Core.Bool.{Bool, true}

pub record Floats (F : Type 0) : Type 0 where
  pub of_int : ℕ → F
  pub neg : F → F
  pub add : F → F → F
  pub sub : F → F → F
  pub mul : F → F → F
  pub div : F → F → F
  pub lt : F → F → Bool
  pub le : F → F → Bool
  pub same : F → F → Bool
  pub same_refl : (x : F) → same x x ≡ true
