-- ===== src/Prelude/Result.antt =====
-- A call that may raise: its value, or the error. `reject c e` is `if c: raise e`, and `each` is a
-- `for` loop whose body may raise.
use mathlib.Core.Path.{◌≡◌, refl, ap, ◌∙◌}
use mathlib.Core.Bool.{Bool, true, false}
use mathlib.Core.List.{List, [], ◌∷◌, Memᴰ}
use native.Mathlib.Omega.{arith}

pub data Result {ℓ} (E : Type ℓ) (A : Type ℓ) : Type ℓ where
  ok : A → Result E A
  err : E → Result E A

infixl 5 ◌>>=◌ ◌>>◌
unfoldable pub ◌>>=◌ {ℓ} : {E A B : Type ℓ} → Result E A → (A → Result E B) → Result E B
ok a >>= f = f a
err e >>= f = err e

unfoldable pub ◌>>◌ {ℓ} : {E A B : Type ℓ} → Result E A → Result E B → Result E B
ok a >> k = k
err e >> k = err e

unfoldable pub reject : {E : Type 0} → Bool → E → Result E (Unit {0})
reject true e = err e
reject false e = ok tt

abbrev pub is_ok {ℓ} : {E A : Type ℓ} → Result E A → Bool
is_ok (ok a) = true
is_ok (err e) = false

pub >>=-eq-ok {ℓ} :
    {E A B : Type ℓ} (m : Result E A) (f : A → Result E B) {b : B}
    → (m >>= f) ≡ ok b
    → (a : A) × (m ≡ ok a) × (f a ≡ ok b)
unfolding ◌>>=◌
>>=-eq-ok (ok a) f h = (a, refl, h)
>>=-eq-ok (err e) f h = cc

unfoldable pub each : {E A : Type 0} → (A → Result E (Unit {0})) → List A → Result E (Unit {0})
each f [] = ok tt
each f (x ∷ xs) = f x >> each f xs

-- Inversion of two calls in a row that did not raise.
pub >>-eq-ok :
    {E A B : Type 0} (m : Result E A) (k : Result E B) {b : B}
    → (m >> k) ≡ ok b
    → ((a : A) × (m ≡ ok a)) × (k ≡ ok b)
unfolding ◌>>◌
>>-eq-ok (ok a) k h = ((a, refl), h)
>>-eq-ok (err e) k h = cc

pub ok-injective {ℓ} : {E A : Type ℓ} {a b : A} → ◌≡◌ {A = Result E A} (ok a) (ok b) → a ≡ b
ok-injective h = cc

-- A test in front of the rest of a body: neither raised.
pub reject->>-eq-ok :
    {E B : Type 0} (c : Bool) (e : E) (k : Result E B) {b : B}
    → (reject c e >> k) ≡ ok b
    → (c ≡ false) × (k ≡ ok b)
unfolding reject ◌>>◌
reject->>-eq-ok true e k h = cc
reject->>-eq-ok false e k h = (refl, h)

-- A test that did not raise was false.
pub reject-eq-ok : {E : Type 0} (c : Bool) (e : E) → reject c e ≡ ok tt → c ≡ false
unfolding reject
reject-eq-ok c e h = ground arith

module _ {E A : Type 0} (f : A → Result E (Unit {0})) where
  -- A loop that did not raise ran its body without raising on every element.
  pub each-mem : (xs : List A) → each f xs ≡ ok tt → (x : A) → Memᴰ x xs → f x ≡ ok tt
  unfolding each
  each-mem [] h x m = elim m [ ]
  each-mem (y ∷ xs) h x (Memᴰ.head e) = ap f e ∙ (>>-eq-ok (f y) (each f xs) h).0.1
  each-mem (y ∷ xs) h x (Memᴰ.tail m) = each-mem xs (>>-eq-ok (f y) (each f xs) h).1 x m

  -- A loop whose body raises on no element does not raise.
  pub each-eq-ok : (xs : List A) → ((x : A) → Memᴰ x xs → f x ≡ ok tt) → each f xs ≡ ok tt
  unfolding each ◌>>◌
  each-eq-ok [] h = refl
  each-eq-ok (y ∷ xs) h = rw (h y (Memᴰ.head refl)) (each-eq-ok xs (λ x m. h x (Memᴰ.tail m)))

-- A call that returns.
abbrev pub Succeeds : {E A : Type 0} → Result E A → Type 0
Succeeds {A = A} m = (a : A) × (m ≡ ok a)

pub >>=-Succeeds :
    {E A B : Type 0} (m : Result E A) (f : A → Result E B) {a : A}
    → m ≡ ok a
    → Succeeds (f a)
    → Succeeds (m >>= f)
unfolding ◌>>=◌
>>=-Succeeds m f h (b, k) = (b, rw h k)

pub reject-Succeeds :
    {E B : Type 0} (c : Bool) (e : E) (k : Result E B)
    → c ≡ false
    → Succeeds k
    → Succeeds (reject c e >> k)
unfolding reject ◌>>◌
reject-Succeeds c e k h (b, s) = (b, rw h s)
