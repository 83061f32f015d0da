-- ===== src/Prelude/Rows.antt =====
-- Tables of a database as lists of rows, read and written by primary key and tenant.
use mathlib.Core.List.{Nodup, Nodup-nil, Nodup-cons}
use mathlib.Core.List.Perm
use mathlib.Core.Logic.{∥∥₁_elim}
use mathlib.Core.HLevel.{⊥_prop}
use pruebas_personalizadas.Prelude.Common.{
  ℕ, zero, suc, String, ◌≡◌, refl, sym, ap, subst, ◌∙◌, Bool, true, false, ◌&&◌, Option, none, some,
  List, [], ◌∷◌, ◌++◌, map, ◌⊎◌, inl, inr, Memᴰ,
}
use pruebas_personalizadas.Prelude.Tests.{
  if-true, if-false, if◌then◌else◌, Bool-cases, and-true, some-injective,
}
use pruebas_personalizadas.Prelude.Eq.{◌==◌, string_eq, beq_refl, eq_of_true, ne_of_false}
use pruebas_personalizadas.Prelude.Lists.{
  take, filter, mem-append, mem-map, map-mem, mem-filter, mem-take,
}
use pruebas_personalizadas.Prelude.Sort.{sort, sort-perm}

pub record Row (A : Type 0) : Type 0 where
  pub id_of : A → String
  pub tenant_of : A → String

-- Every row of a table satisfies a predicate.
abbrev pub Each : {A : Type 0} → (A → Type 0) → List A → Type 0
Each {A} P rows = (row : A) → Memᴰ row rows → P row

module _ {A : Type 0} ⦃r : Row A⦄ where
  abbrev pub is_row : String → String → A → Bool
  is_row id tenant_id row = r.id_of row == id && r.tenant_of row == tenant_id

  -- `select … where id == … and tenant_id == …`
  unfoldable pub select_one : String → String → List A → Option A
  select_one id tenant_id [] = none
  select_one id tenant_id (row ∷ rows) =
      let later = select_one id tenant_id rows in
      if is_row id tenant_id row then some row else later

  -- `session.get`
  unfoldable pub get_row : String → List A → Option A
  get_row id [] = none
  get_row id (row ∷ rows) =
      let later = get_row id rows in if r.id_of row == id then some row else later

  -- The write of a changed row.
  unfoldable pub put : A → List A → List A
  put new [] = []
  put new (row ∷ rows) =
      let later = put new rows in if r.id_of row == r.id_of new then new ∷ later else row ∷ later

  abbrev pub ids : List A → List String
  ids = map r.id_of

  pub select_one-some :
      (id tenant_id : String) (rows : List A) {row : A}
      → select_one id tenant_id rows ≡ some row
      → Memᴰ row rows × (r.id_of row ≡ id) × (r.tenant_of row ≡ tenant_id)
  unfolding select_one
  select_one-some id tenant_id [] h = cc
  select_one-some id tenant_id (x ∷ rows) h = elim (Bool-cases (is_row id tenant_id x)) [
    | inl t ↦
        let e = some-injective (rw (t, if◌then◌else◌) at h) in
        let (p, q) = and-true t in
        (
          Memᴰ.head (sym e),
          ap r.id_of (sym e) ∙ eq_of_true p,
          ap r.tenant_of (sym e) ∙ eq_of_true q,
        )
    | inr f ↦
        let (m, e, g) = select_one-some id tenant_id rows (rw (f, if◌then◌else◌) at h) in
        (Memᴰ.tail m, e, g)
  ]

  pub get_row-some :
      (id : String) (rows : List A) {row : A}
      → get_row id rows ≡ some row
      → Memᴰ row rows × (r.id_of row ≡ id)
  unfolding get_row
  get_row-some id [] h = cc
  get_row-some id (x ∷ rows) h = elim (Bool-cases (r.id_of x == id)) [
    | inl t ↦
        let e = some-injective (rw (t, if◌then◌else◌) at h) in
        (Memᴰ.head (sym e), ap r.id_of (sym e) ∙ eq_of_true t)
    | inr f ↦ let (m, e) = get_row-some id rows (rw (f, if◌then◌else◌) at h) in (Memᴰ.tail m, e)
  ]

  pub get_row-none : (id : String) (rows : List A) → get_row id rows ≡ none → ¬ Memᴰ id (ids rows)
  unfolding get_row
  get_row-none id [] h m = elim m [ ]
  get_row-none id (x ∷ rows) h m = elim (Bool-cases (r.id_of x == id)) [
    | inl t ↦ cc (rw (t, if◌then◌else◌) at h)
    | inr f ↦ elim m [
      | Memᴰ.head e ↦ ne_of_false f (sym e)
      | Memᴰ.tail k ↦ get_row-none id rows (rw (f, if◌then◌else◌) at h) k
    ]
  ]

  pub put-mem :
      (new : A) (rows : List A) {row : A} → Memᴰ row (put new rows) → (row ≡ new) ⊎ Memᴰ row rows
  unfolding put
  put-mem new [] m = elim m [ ]
  put-mem new (x ∷ rows) {row} m = go (r.id_of x == r.id_of new) m (put-mem new rows)
    where
      go :
          (b : Bool)
          → Memᴰ row (if b then new ∷ put new rows else x ∷ put new rows)
          → (Memᴰ row (put new rows) → (row ≡ new) ⊎ Memᴰ row rows)
          → (row ≡ new) ⊎ Memᴰ row (x ∷ rows)
      go true (Memᴰ.head e) later = inl e
      go false (Memᴰ.head e) later = inr (Memᴰ.head e)
      go true (Memᴰ.tail k) later = elim (later k) [ inl e ↦ inl e | inr n ↦ inr (Memᴰ.tail n) ]
      go false (Memᴰ.tail k) later = elim (later k) [ inl e ↦ inl e | inr n ↦ inr (Memᴰ.tail n) ]

  -- A row behind a write is the written one or one with another key.
  pub put-mem_other :
      (new : A) (rows : List A) {row : A}
      → Memᴰ row (put new rows)
      → (row ≡ new) ⊎ (Memᴰ row rows × ((r.id_of row == r.id_of new) ≡ false))
  unfolding put
  put-mem_other new [] m = elim m [ ]
  put-mem_other new (x ∷ rows) {row} m = elim (Bool-cases (r.id_of x == r.id_of new)) [
    | inl t ↦ elim (subst (Memᴰ row) (if-true _ _ t) m) [
      | Memᴰ.head e ↦ inl e
      | Memᴰ.tail k ↦ later (put-mem_other new rows k)
    ]
    | inr f ↦ elim (subst (Memᴰ row) (if-false _ _ f) m) [
      | Memᴰ.head e ↦ inr (Memᴰ.head e, ap (λ (a : A). r.id_of a == r.id_of new) e ∙ f)
      | Memᴰ.tail k ↦ later (put-mem_other new rows k)
    ]
  ]
    where
      later :
          (row ≡ new) ⊎ (Memᴰ row rows × ((r.id_of row == r.id_of new) ≡ false))
          → (row ≡ new) ⊎ (Memᴰ row (x ∷ rows) × ((r.id_of row == r.id_of new) ≡ false))
      later (inl e) = inl e
      later (inr p) = inr (Memᴰ.tail p.0, p.1)

  -- A write keeps the primary keys.
  pub ids-put : (new : A) (rows : List A) → ids (put new rows) ≡ ids rows
  unfolding put
  ids-put new [] = refl
  ids-put new (x ∷ rows) = go (r.id_of x == r.id_of new) (λ t. eq_of_true t) (ids-put new rows)
    where
      go :
          (b : Bool)
          → (b ≡ true → r.id_of x ≡ r.id_of new)
          → ids (put new rows) ≡ ids rows
          → ids (if b then new ∷ put new rows else x ∷ put new rows) ≡ r.id_of x ∷ ids rows
      go true e later = cc (e refl, later)
      go false e later = cc (later)

  pub Each-put :
      {P : A → Type 0} (new : A) (rows : List A) → P new → Each P rows → Each P (put new rows)
  Each-put {P} new rows p every row m = elim (put-mem new rows m) [
    | inl e ↦ subst P (sym e) p
    | inr n ↦ every row n
  ]

  -- A row of the table is still there, or the written row has taken its place.
  pub mem-put :
      (new : A) (rows : List A) {row : A}
      → Memᴰ row rows
      → ((r.id_of row ≡ r.id_of new) × Memᴰ new (put new rows)) ⊎ Memᴰ row (put new rows)
  unfolding put
  mem-put new [] m = elim m [ ]
  mem-put new (x ∷ rows) {row} m =
      go (r.id_of x == r.id_of new) (λ t. eq_of_true t) m (mem-put new rows)
    where
      go :
          (b : Bool)
          → (b ≡ true → r.id_of x ≡ r.id_of new)
          → Memᴰ row (x ∷ rows)
          → (Memᴰ row rows
              → ((r.id_of row ≡ r.id_of new) × Memᴰ new (put new rows)) ⊎ Memᴰ row (put new rows))
          → ((r.id_of row ≡ r.id_of new)
              × Memᴰ new (if b then new ∷ put new rows else x ∷ put new rows))
            ⊎ Memᴰ row (if b then new ∷ put new rows else x ∷ put new rows)
      go true t (Memᴰ.head e) later = inl (ap r.id_of e ∙ t refl, Memᴰ.head refl)
      go false t (Memᴰ.head e) later = inr (Memᴰ.head e)
      go true t (Memᴰ.tail k) later = elim (later k) [
        | inl p ↦ inl (p.0, Memᴰ.head refl)
        | inr n ↦ inr (Memᴰ.tail n)
      ]
      go false t (Memᴰ.tail k) later = elim (later k) [
        | inl p ↦ inl (p.0, Memᴰ.tail p.1)
        | inr n ↦ inr (Memᴰ.tail n)
      ]

  -- Where each key occurs once, two rows of one key are one row.
  pub same_row :
      (rows : List A) {a b : A}
      → Nodup (ids rows)
      → Memᴰ a rows
      → Memᴰ b rows
      → r.id_of a ≡ r.id_of b
      → a ≡ b
  same_row [] once m n e = elim m [ ]
  same_row (x ∷ rows) once (Memᴰ.head p) (Memᴰ.head q) e = p ∙ sym q
  same_row (x ∷ rows) once (Memᴰ.tail m) (Memᴰ.tail n) e = same_row rows (Nodup-cons.0 once).1 m n e
  same_row (x ∷ rows) {a} {b} once (Memᴰ.head p) (Memᴰ.tail n) e = absurd (
      (Nodup-cons.0 once).0
        ∣ subst (λ i. Memᴰ i (ids rows)) (sym e ∙ ap r.id_of p) (mem-map r.id_of rows n) ∣₁)
  same_row (x ∷ rows) {a} {b} once (Memᴰ.tail m) (Memᴰ.head q) e = absurd (
      (Nodup-cons.0 once).0
        ∣ subst (λ i. Memᴰ i (ids rows)) (e ∙ ap r.id_of q) (mem-map r.id_of rows m) ∣₁)

  -- A written row is the one that is read back, where its key is in the table once.
  pub select_one-put :
      (new : A) (rows : List A)
      → Memᴰ (r.id_of new) (ids rows)
      → select_one (r.id_of new) (r.tenant_of new) (put new rows) ≡ some new
  unfolding select_one put
  select_one-put new [] m = elim m [ ]
  select_one-put new (x ∷ rows) m = elim (Bool-cases (r.id_of x == r.id_of new)) [
    | inl t ↦ rw (t, if◌then◌else◌, beq_refl (r.id_of new), beq_refl (r.tenant_of new), ◌&&◌) refl
    | inr f ↦ elim m [
      | Memᴰ.head e ↦ absurd (ne_of_false f (sym e))
      | Memᴰ.tail k ↦ rw (f, if◌then◌else◌, ◌&&◌) (rw f (select_one-put new rows k))
    ]
  ]

-- Where each key occurs once, it does in a part, in a sorted copy and in a prefix.
module _ {A : Type 0} ⦃r : Row A⦄ where
  once-filter : (p : A → Bool) (rows : List A) → Nodup (ids rows) → Nodup (ids (filter p rows))
  unfolding filter
  once-filter p [] once = once
  once-filter p (x ∷ rows) once =
      let (out, rest) = Nodup-cons.0 once in
      let later = once-filter p rows rest in
      elim (Bool-cases (p x)) [
        | inl t ↦ rw t (
            Nodup-cons.1 (
              λ m. ∥∥₁_elim m ⊥_prop λ k.
                  let (y, n, e) = map-mem r.id_of (filter p rows) k in
                  out
                    ∣ subst (λ i. Memᴰ i (ids rows)) (sym e)
                      (mem-map r.id_of rows (mem-filter p rows n).0) ∣₁,
              later,
            ))
        | inr f ↦ rw f later
      ]

  once-take : (n : ℕ) (rows : List A) → Nodup (ids rows) → Nodup (ids (take n rows))
  once-take zero rows once = Nodup-nil
  once-take (suc n) [] once = Nodup-nil
  once-take (suc n) (x ∷ rows) once =
      let (out, rest) = Nodup-cons.0 once in
      Nodup-cons.1 (
        λ m. ∥∥₁_elim m ⊥_prop λ k.
            let (y, k', e) = map-mem r.id_of (take n rows) k in
            out
              ∣ subst (λ i. Memᴰ i (ids rows)) (sym e)
                (mem-map r.id_of rows (mem-take n rows k')) ∣₁,
        once-take n rows rest,
      )

  pub once-chosen :
      (n : ℕ) (before : A → A → Bool) (p : A → Bool) (rows : List A)
      → Nodup (ids rows)
      → Nodup (ids (take n (sort before (filter p rows))))
  once-chosen n before p rows once = once-take n _ (
      Perm.nodup (Perm.symm (Perm.map r.id_of (sort-perm before (filter p rows))))
        (once-filter p rows once))

-- Where the key of a written row is in the table, so is the written row.
pub put-mem_new :
    {A : Type 0} ⦃r : Row A⦄ (new : A) (rows : List A)
    → Memᴰ (r.id_of new) (ids rows)
    → Memᴰ new (put new rows)
put-mem_new ⦃r⦄ new rows m =
    (select_one-some (r.id_of new) (r.tenant_of new) (put new rows) (select_one-put new rows m)).0

pub Each-append :
    {A : Type 0} {P : A → Type 0} (rows : List A) (new : A)
    → Each P rows
    → P new
    → Each P (rows ++ new ∷ [])
Each-append {P} rows new every p row m = elim (mem-append rows (new ∷ []) m) [
  | inl k ↦ every row k
  | inr (Memᴰ.head e) ↦ subst P (sym e) p
  | inr (Memᴰ.tail k) ↦ elim k [ ]
]
