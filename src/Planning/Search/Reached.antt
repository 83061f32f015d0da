-- ===== src/Planning/Search/Reached.antt =====
-- What the beam search returns: legal selections of the asked size, and one of them at the end.
use pruebas_personalizadas.Prelude.Common.{
  ℕ, zero, suc, ◌+◌, ◌≤◌, ◌≡◌, refl, sym, subst, some, List, [], ◌∷◌, true, inl, inr, Memᴰ, arith,
}
use pruebas_personalizadas.Prelude.Tests.{Bool-cases, Option-cases, some-injective}
use pruebas_personalizadas.Prelude.Lists.{get_elem?, drop, mem-append, mem-take, mem_if, List-cases}
use pruebas_personalizadas.Prelude.Sort.{mem-sort}
use pruebas_personalizadas.Prelude.Floats.{Floats}
use pruebas_personalizadas.Contracts.Blueprint.{AssessmentPlanningPolicy}
use pruebas_personalizadas.Contracts.Enums.{
  StructuredJustificationMode, structured_justification_mode_eq,
}
use pruebas_personalizadas.Planning.Scores.{ScoredOpportunity}
use pruebas_personalizadas.Planning.Search.{
  State, next_start, items_at, fits, add_to, extensions, expand, search, replaceable,
  first_replaceable, pick, select_exact,
}
use pruebas_personalizadas.Planning.Search.Legal.{Legal, Legal-start, Legal-add_to, drop-cons}

module _ {F : Type 0} (scored : List (ScoredOpportunity F)) (fl : Floats F)
    (policy : AssessmentPlanningPolicy F) (max_minutes : ℕ) where
  -- An extension adds one fitting candidate that stands at or behind `index`.
  record Extends (state : State F) (index : ℕ) (next : State F) : Type 0 where
    at : ℕ
    added : ScoredOpportunity F
    found : get_elem? scored at ≡ some added
    behind : index ≤ at
    fitting :
        fits scored fl policy max_minutes state (items_at scored state.selected) added.opportunity
        ≡ true
    made :
        next
        ≡ add_to scored fl policy max_minutes state
            (items_at scored state.selected)
            at
            added.opportunity

  extensions-Extends :
      (state : State F) (index : ℕ) (rest : List (ScoredOpportunity F)) {next : State F}
      → drop index scored ≡ rest
      → Memᴰ next (
          extensions scored fl policy max_minutes state (items_at scored state.selected) index rest)
      → Extends state index next
  unfolding extensions
  extensions-Extends state index [] e m = elim m [ ]
  extensions-Extends state index (s ∷ rest) {next} e m =
      let (found, e') = drop-cons index scored e in
      elim (mem_if
        (fits scored fl policy max_minutes state (items_at scored state.selected) s.opportunity)
        {y = add_to scored fl policy max_minutes state (items_at scored state.selected) index
          s.opportunity}
        _ m) [
          | inl (t, made) ↦ record {
            at = index;
            added = s;
            found = found;
            behind = omega arith;
            fitting = t;
            made = made;
          }
          | inr k ↦ later (extensions-Extends state (suc index) rest e' k)
        ]
    where
      later : Extends state (suc index) next → Extends state index next
      later x = record {
        at = x.at;
        added = x.added;
        found = x.found;
        behind = omega (arith, x.behind);
        fitting = x.fitting;
        made = x.made;
      }

  abbrev AllLegal : ℕ → List (State F) → Type 0
  AllLegal k states =
      (state : State F) → Memᴰ state states → Legal scored fl policy max_minutes k state

  Extends-Legal :
      {k : ℕ} (state next : State F)
      → Legal scored fl policy max_minutes k state
      → Extends state (next_start state.selected) next
      → Legal scored fl policy max_minutes (suc k) next
  Extends-Legal {k} state next legal x =
      subst (Legal scored fl policy max_minutes (suc k)) (sym x.made) (
        Legal-add_to scored fl policy max_minutes state legal x.at x.added x.found x.behind
          x.fitting)

  expand-Legal :
      {k : ℕ} (states : List (State F))
      → AllLegal k states
      → AllLegal (suc k) (expand scored fl policy max_minutes states)
  unfolding expand
  expand-Legal [] all next m = elim m [ ]
  expand-Legal (state ∷ states) all next m = elim (mem-append _ _ m) [
    | inl k ↦
        Extends-Legal state next (all state (Memᴰ.head refl))
          (extensions-Extends state (next_start state.selected) _ refl k)
    | inr k ↦ expand-Legal states (λ s n. all s (Memᴰ.tail n)) next k
  ]

  pub search-Legal :
      (beam depth k n : ℕ) (states : List (State F)) {result : List (State F)}
      → depth + k ≡ n
      → AllLegal k states
      → search scored fl policy max_minutes beam depth states ≡ some result
      → AllLegal n result
  unfolding search
  search-Legal beam zero k n states e all h state m =
      let same : k ≡ n = omega arith in
      let kept : states ≡ _ = some-injective h in
      subst (λ j. Legal scored fl policy max_minutes j state) same
        (all state (subst (Memᴰ state) (sym kept) m))
  search-Legal beam (suc depth) k n states e all h state m =
      elim (List-cases (expand scored fl policy max_minutes states)) [
        | inl none_left ↦ absurd (cc (rw (none_left, search) at h))
        | inr (s, ss, some_left) ↦
            search-Legal beam depth (suc k) n _ (omega arith)
              (λ next n.
                expand-Legal states all next
                  (subst (Memᴰ next) (sym some_left) (mem-sort _ _ (mem-take beam _ n))))
              (rw (some_left, search) at h) state m
      ]

module _ {F : Type 0} (scored : List (ScoredOpportunity F)) where
  -- What `pick` returns is one of the states, and under SELECTED it passed the test.
  first_replaceable-some :
      (max_reserve : ℕ) (states : List (State F)) {state : State F}
      → first_replaceable scored max_reserve states ≡ some state
      → Memᴰ state states × (replaceable scored max_reserve state ≡ true)
  unfolding first_replaceable
  first_replaceable-some max_reserve [] h = cc
  first_replaceable-some max_reserve (s ∷ ss) h =
      elim (Bool-cases (replaceable scored max_reserve s)) [
        | inl t ↦
            let e : s ≡ _ = some-injective (rw (t, first_replaceable) at h) in
            (Memᴰ.head (sym e), subst (λ x. replaceable scored max_reserve x ≡ true) e t)
        | inr f ↦
            let (m, t) = first_replaceable-some max_reserve ss (rw (f, first_replaceable) at h) in
            (Memᴰ.tail m, t)
      ]

  pick-some :
      (mode : StructuredJustificationMode) (max_reserve : ℕ) (states : List (State F))
      {state : State F}
      → pick scored mode max_reserve states ≡ some state
      → Memᴰ state states
        × (mode ≡ StructuredJustificationMode.selected
            → replaceable scored max_reserve state ≡ true)
  unfolding pick
  pick-some mode max_reserve [] h = cc
  pick-some StructuredJustificationMode.selected max_reserve (s ∷ ss) h =
      let (m, t) = first_replaceable-some max_reserve (s ∷ ss) h in (m, λ _. t)
  pick-some StructuredJustificationMode.not_required max_reserve (s ∷ ss) h =
      (Memᴰ.head (sym (some-injective h)), λ e. cc)
  pick-some StructuredJustificationMode.all max_reserve (s ∷ ss) h =
      (Memᴰ.head (sym (some-injective h)), λ e. cc)

module _ {F : Type 0} (fl : Floats F) (policy : AssessmentPlanningPolicy F) where
  -- The state that the beam search returns selects exactly the asked number of distinct candidates in
  -- range, whose minutes are counted and fit, and whose evidence is kept apart; under SELECTED it
  -- passed the test on the justification classes.
  pub select_exact-Legal :
      (scored : List (ScoredOpportunity F)) (count max_minutes : ℕ)
      (mode : StructuredJustificationMode) (beam : ℕ) {state : State F}
      → select_exact fl policy scored count max_minutes mode beam ≡ some state
      → Legal scored fl policy max_minutes count state
        × (mode ≡ StructuredJustificationMode.selected
            → replaceable scored policy.max_reserve_opportunities state ≡ true)
  unfolding select_exact
  select_exact-Legal scored count max_minutes mode beam h =
      elim (Option-cases (search scored fl policy max_minutes beam count start)) [
        | inl lost ↦ absurd (cc (rw (lost, select_exact) at h))
        | inr (states, found) ↦
            let (m, test) = pick-some scored mode _ states (rw (found, select_exact) at h) in
            (
              search-Legal scored fl policy max_minutes beam count 0 count start (omega arith) first
                  found _ m,
              test,
            )
      ]
    where
      start : List (State F)
      start = record { selected = []; score = fl.of_int 0; minutes = 0 } ∷ []

      first : (s : State F) → Memᴰ s start → Legal scored fl policy max_minutes 0 s
      first s (Memᴰ.head e) =
          subst (Legal scored fl policy max_minutes 0) (sym e)
            (Legal-start scored fl policy max_minutes (fl.of_int 0))
      first s (Memᴰ.tail m) = elim m [ ]
