-- ===== src/Planning/Search/Legal.antt =====
-- Every state that the beam search reaches is a legal selection.
use mathlib.Core.List.{Nodup, Nodup-nil}
use pruebas_personalizadas.Prelude.Common.{
  ℕ, zero, suc, ◌+◌, ◌≤◌, ◌<◌, ◌≡◌, refl, ap, ◌∙◌, some, List, [], ◌∷◌, ◌++◌, Bool, true, false,
  not, Memᴰ, ◌⊎◌, inl, inr, arith,
}
use pruebas_personalizadas.Prelude.Tests.{if◌then◌else◌, ltb-false, not-true}
use pruebas_personalizadas.Prelude.Lists.{
  length, get_elem?, drop, any-false, length-append, mem-append,
}
use pruebas_personalizadas.Prelude.Sets.{Nodup-snoc}
use pruebas_personalizadas.Prelude.Floats.{Floats}
use pruebas_personalizadas.Contracts.Blueprint.{AssessmentPlanningPolicy}
use pruebas_personalizadas.Contracts.Planning.{QuestionOpportunity}
use pruebas_personalizadas.Planning.Scores.{ScoredOpportunity, evidence_overlap, sum_minutes}
use pruebas_personalizadas.Planning.Search.{State, next_start, items_at, fits, add_to}

next_start-snoc : (is : List ℕ) (i : ℕ) → next_start (is ++ i ∷ []) ≡ i + 1
unfolding next_start
next_start-snoc [] i = refl
next_start-snoc (j ∷ []) i = refl
next_start-snoc (j ∷ k ∷ is) i = next_start-snoc (k ∷ is) i

module _ {ℓ} {A : Type ℓ} where
  pub drop-cons :
      (n : ℕ) (xs : List A) {y : A} {ys : List A}
      → drop n xs ≡ y ∷ ys
      → (get_elem? xs n ≡ some y) × (drop (suc n) xs ≡ ys)
  drop-cons zero [] h = cc
  drop-cons zero (x ∷ xs) h = (ground arith, ground arith)
  drop-cons (suc n) [] h = cc
  drop-cons (suc n) (x ∷ xs) h = drop-cons n xs h

  pub get_elem?-lt-length : (xs : List A) (n : ℕ) {y : A} → get_elem? xs n ≡ some y → n < length xs
  get_elem?-lt-length [] n h = cc
  get_elem?-lt-length (x ∷ xs) zero h = omega arith
  get_elem?-lt-length (x ∷ xs) (suc n) h = omega (arith, get_elem?-lt-length xs n h)

module _ {F : Type 0} (fl : Floats F) (policy : AssessmentPlanningPolicy F) where
  -- No later item overlaps an earlier one beyond the policy's maximum.
  abbrev pub Apart : List (QuestionOpportunity F) → Type 0
  Apart [] = Unit
  Apart (o ∷ os) =
      ((p : QuestionOpportunity F)
        → Memᴰ p os
        → fl.lt policy.maximum_evidence_overlap (evidence_overlap fl p o) ≡ false)
      × Apart os

  Apart-snoc :
      (os : List (QuestionOpportunity F)) (c : QuestionOpportunity F)
      → Apart os
      → ((o : QuestionOpportunity F)
          → Memᴰ o os
          → fl.lt policy.maximum_evidence_overlap (evidence_overlap fl c o) ≡ false)
      → Apart (os ++ c ∷ [])
  Apart-snoc [] c a h = (λ p m. elim m [ ], tt)
  Apart-snoc (o ∷ os) c a h = (
    λ p m. elim (mem-append os (c ∷ []) m) [ inl k ↦ a.0 p k | inr k ↦ only p k ],
    Apart-snoc os c a.1 (λ q m. h q (Memᴰ.tail m)),
  )
    where
      only :
          (p : QuestionOpportunity F)
          → Memᴰ p (c ∷ [])
          → fl.lt policy.maximum_evidence_overlap (evidence_overlap fl p o) ≡ false
      only p (Memᴰ.head e) =
          ap (λ q. fl.lt policy.maximum_evidence_overlap (evidence_overlap fl q o)) e
          ∙ h o (Memᴰ.head refl)
      only p (Memᴰ.tail k) = elim k [ ]

sum_minutes-snoc :
    {F : Type 0} (os : List (QuestionOpportunity F)) (c : QuestionOpportunity F)
    → sum_minutes (os ++ c ∷ []) ≡ sum_minutes os + c.target_minutes
unfolding sum_minutes
sum_minutes-snoc [] c = omega arith
sum_minutes-snoc (o ∷ os) c = omega (arith, sum_minutes-snoc os c)

guard_both : (b c : Bool) → (if b then false else not c) ≡ true → (b ≡ false) × (c ≡ false)
guard_both true c h = cc
guard_both false c h = (refl, not-true h)

module _ {F : Type 0} (scored : List (ScoredOpportunity F)) where
  pub items_at-append :
      (is js : List ℕ) → items_at scored (is ++ js) ≡ items_at scored is ++ items_at scored js
  unfolding items_at
  items_at-append [] js = refl
  items_at-append (i ∷ is) js = ground (arith, items_at-append is js)

  module _ (fl : Floats F) (policy : AssessmentPlanningPolicy F) (max_minutes : ℕ) where
    -- A selection of `k` distinct candidates in order, whose minutes are counted and fit, and whose
    -- evidence is kept apart.
    pub record Legal (k : ℕ) (state : State F) : Type 0 where
      pub count : length state.selected ≡ k
      pub once : Nodup state.selected
      pub below : (i : ℕ) → Memᴰ i state.selected → i < next_start state.selected
      pub in_range :
          (i : ℕ)
          → Memᴰ i state.selected
          → (s : ScoredOpportunity F) × (get_elem? scored i ≡ some s)
      pub counted : state.minutes ≡ sum_minutes (items_at scored state.selected)
      pub bounded : state.minutes ≤ max_minutes
      pub apart : Apart fl policy (items_at scored state.selected)

    pub Legal-start : (score : F) → Legal 0 (record { selected = []; score = score; minutes = 0 })
    unfolding items_at sum_minutes
    Legal-start score = record {
      count = refl;
      once = Nodup-nil;
      below = λ i m. elim m [ ];
      in_range = λ i m. elim m [ ];
      counted = refl;
      bounded = omega arith;
      apart = tt;
    }

    module _ {k : ℕ} (state : State F) (legal : Legal k state) (i : ℕ) (s : ScoredOpportunity F)
        (found : get_elem? scored i ≡ some s) (after : next_start state.selected ≤ i)
        (fitting : fits scored fl policy max_minutes state
            (items_at scored state.selected)
            s.opportunity
          ≡ true) where
      abbrev items : List (QuestionOpportunity F)
      items = items_at scored state.selected

      items-snoc : items_at scored (state.selected ++ i ∷ []) ≡ items ++ s.opportunity ∷ []
      items-snoc =
          items_at-append state.selected (i ∷ [])
          ∙ ap (λ l. items ++ l) (unfold items_at in rw (found, items_at))

      fits-bounded : state.minutes + s.opportunity.target_minutes ≤ max_minutes
      unfolding fits
      fits-bounded = ltb-false _ _ (guard_both _ _ fitting).0

      fits-apart :
          (o : QuestionOpportunity F)
          → Memᴰ o items
          → fl.lt policy.maximum_evidence_overlap (evidence_overlap fl s.opportunity o) ≡ false
      unfolding fits
      fits-apart = any-false _ items (guard_both _ _ fitting).1

      pub Legal-add_to :
          Legal (suc k) (add_to scored fl policy max_minutes state items i s.opportunity)
      Legal-add_to = record {
        count = omega (arith, length-append state.selected (i ∷ []), legal.count);
        once = Nodup-snoc state.selected i legal.once (λ m. omega (arith, legal.below i m));
        below = λ j m. rw (next_start-snoc state.selected i) (below_new j (mem-append _ _ m));
        in_range = λ j m. in_range_new j (mem-append _ _ m);
        counted =
            rw items-snoc (omega (arith, sum_minutes-snoc items s.opportunity, legal.counted));
        bounded = fits-bounded;
        apart = rw items-snoc (Apart-snoc fl policy items s.opportunity legal.apart fits-apart);
      }
        where
          below_new : (j : ℕ) → Memᴰ j state.selected ⊎ Memᴰ j (i ∷ []) → j < i + 1
          below_new j (inl m) = omega (arith, legal.below j m)
          below_new j (inr (Memᴰ.head e)) = omega arith
          below_new j (inr (Memᴰ.tail m)) = elim m [ ]

          in_range_new :
              (j : ℕ)
              → Memᴰ j state.selected ⊎ Memᴰ j (i ∷ [])
              → (t : ScoredOpportunity F) × (get_elem? scored j ≡ some t)
          in_range_new j (inl m) = legal.in_range j m
          in_range_new j (inr (Memᴰ.head e)) = (s, ap (get_elem? scored) e ∙ found)
          in_range_new j (inr (Memᴰ.tail m)) = elim m [ ]
