-- ===== src/Planning/Search.antt =====
-- `_valid_candidates` and the beam search `_select_exact` of comprehension_verification/planning.py.
-- A selection is a tuple of indices into `scored`; every index is in range, as the search makes them.
pub mod Legal
pub mod Reached
use pruebas_personalizadas.Prelude.Common.{
  ℕ, zero, suc, ◌+◌, String, Option, none, some, List, [], ◌∷◌, ◌++◌, map, Bool, true, false, not,
  ◌&&◌,
}
use pruebas_personalizadas.Prelude.Tests.{if◌then◌else◌, ltb, nat_beq}
use pruebas_personalizadas.Prelude.Eq.{◌==◌, nat_eq, bool_eq}
use pruebas_personalizadas.Prelude.Lists.{get_elem?, take, drop, filter, any}
use pruebas_personalizadas.Prelude.Sets.{mem, subset}
use pruebas_personalizadas.Prelude.Sort.{sort}
use pruebas_personalizadas.Prelude.Floats.{Floats}
use pruebas_personalizadas.Contracts.Enums.{
  StructuredJustificationMode, structured_justification_mode_eq, response_format_eq,
}
use pruebas_personalizadas.Contracts.Blueprint.{AssessmentPlanningPolicy, AssessmentBlueprint}
use pruebas_personalizadas.Contracts.Planning.{QuestionOpportunity, EvidenceMapPatch}
use pruebas_personalizadas.Planning.Scores.{
  ScoredOpportunity, evidence_overlap, base_score_of, marginal_score, key_lt, state_key_lt,
}

-- `_State`
pub record State (F : Type 0) : Type 0 where
  pub selected : List ℕ
  pub score : F
  pub minutes : ℕ

-- `state.selected[-1] + 1 if state.selected else 0`
unfoldable pub next_start : List ℕ → ℕ
next_start [] = 0
next_start (i ∷ []) = i + 1
next_start (i ∷ j ∷ is) = next_start (j ∷ is)

module _ {F : Type 0} (fl : Floats F) (policy : AssessmentPlanningPolicy F) where
  unfoldable pub is_candidate : AssessmentBlueprint F → QuestionOpportunity F → Bool
  is_candidate blueprint o =
      fl.le policy.minimum_opportunity_quality o.opportunity_quality
      && fl.le policy.minimum_evidence_fit o.evidence_fit
      && any (λ f. mem f blueprint.assessment_constraints.allowed_response_formats)
          o.allowed_response_formats

  abbrev pub scored_lt : ScoredOpportunity F → ScoredOpportunity F → Bool
  scored_lt a b =
      key_lt fl a.base_score a.opportunity.opportunity_id b.base_score b.opportunity.opportunity_id

  unfoldable pub valid_candidates :
      EvidenceMapPatch F → AssessmentBlueprint F → List (ScoredOpportunity F)
  unfolding is_candidate
  valid_candidates mapping blueprint = sort scored_lt (
      map (λ o. record { opportunity = o; base_score = base_score_of fl policy o })
        (filter (is_candidate blueprint) mapping.opportunities))

abbrev pub flags : {F : Type 0} → List (QuestionOpportunity F) → List Bool
flags = map (λ o. o.student_justification_required)

-- `[scored[index].opportunity for index in indices]`
module _ {F : Type 0} (scored : List (ScoredOpportunity F)) where
  unfoldable pub items_at : List ℕ → List (QuestionOpportunity F)
  items_at [] = []
  items_at (i ∷ is) = elim (get_elem? scored i) [
    | none ↦ items_at is
    | some s ↦ s.opportunity ∷ items_at is
  ]

  module _ (fl : Floats F) (policy : AssessmentPlanningPolicy F) (max_minutes : ℕ) where
    -- May the candidate be added: the minutes fit, and no prior item overlaps too much.
    unfoldable pub fits : State F → List (QuestionOpportunity F) → QuestionOpportunity F → Bool
    fits state chosen candidate =
        if ltb max_minutes (state.minutes + candidate.target_minutes)
        then false
        else not (
            any
              (λ prior. fl.lt policy.maximum_evidence_overlap (evidence_overlap fl candidate prior))
              chosen)

    abbrev pub add_to : State F → List (QuestionOpportunity F) → ℕ → QuestionOpportunity F → State F
    add_to state chosen index candidate = record {
      selected = state.selected ++ index ∷ [];
      score = fl.add state.score (marginal_score fl policy candidate chosen);
      minutes = state.minutes + candidate.target_minutes;
    }

    -- `for index in range(start, len(scored))`, over the candidates from `index` on.
    unfoldable pub extensions :
        State F → List (QuestionOpportunity F) → ℕ → List (ScoredOpportunity F) → List (State F)
    unfolding fits
    extensions state chosen index [] = []
    extensions state chosen index (s ∷ rest) =
        let later = extensions state chosen (suc index) rest in
        if fits state chosen s.opportunity
        then add_to state chosen index s.opportunity ∷ later
        else later

    -- `for state in states`
    unfoldable pub expand : List (State F) → List (State F)
    unfolding extensions
    expand [] = []
    expand (state ∷ states) =
        let start = next_start state.selected in
        extensions state (items_at state.selected) start (drop start scored) ++ expand states

    abbrev pub ids_at : List ℕ → List String
    ids_at indices = map (λ o. o.opportunity_id) (items_at indices)

    abbrev pub state_lt : State F → State F → Bool
    state_lt a b =
        state_key_lt fl a.score a.minutes (ids_at a.selected) b.score b.minutes (ids_at b.selected)

    -- `for _depth in range(count)`
    unfoldable pub search : ℕ → ℕ → List (State F) → Option (List (State F))
    unfolding expand
    search beam_width zero states = some states
    search beam_width (suc depth) states = elim (expand states) [
      | [] ↦ none
      | s ∷ ss ↦ search beam_width depth (take beam_width (sort state_lt (s ∷ ss)))
    ]

  -- `[item for index, item in enumerate(scored) if index not in selected]`
  unfoldable pub unselected_from :
      List ℕ → ℕ → List (ScoredOpportunity F) → List (QuestionOpportunity F)
  unselected_from selected index [] = []
  unselected_from selected index (s ∷ rest) =
      let later = unselected_from selected (suc index) rest in
      if mem index selected then later else s.opportunity ∷ later

  abbrev pub unselected : List ℕ → List (QuestionOpportunity F)
  unselected selected = unselected_from selected 0 scored

  -- The test on a state under the SELECTED mode.
  unfoldable pub replaceable : ℕ → State F → Bool
  unfolding items_at unselected_from
  replaceable max_reserve state =
      let primary_flags = flags (items_at state.selected) in
      if mem true primary_flags
      then (if nat_beq max_reserve 0
          then true
          else subset primary_flags (flags (unselected state.selected)))
      else false

  unfoldable pub first_replaceable : ℕ → List (State F) → Option (State F)
  unfolding replaceable
  first_replaceable max_reserve [] = none
  first_replaceable max_reserve (state ∷ states) =
      if replaceable max_reserve state then some state else first_replaceable max_reserve states

  unfoldable pub pick : StructuredJustificationMode → ℕ → List (State F) → Option (State F)
  unfolding first_replaceable
  pick mode max_reserve [] = none
  pick mode max_reserve (state ∷ states) =
      if mode == StructuredJustificationMode.selected
      then first_replaceable max_reserve (state ∷ states)
      else some state

module _ {F : Type 0} (fl : Floats F) (policy : AssessmentPlanningPolicy F) where
  unfoldable pub select_exact :
      List (ScoredOpportunity F) → ℕ → ℕ → StructuredJustificationMode → ℕ → Option (State F)
  unfolding search pick
  select_exact scored count max_minutes mode beam_width =
      elim (search scored fl policy max_minutes beam_width count
        (record { selected = []; score = fl.of_int 0; minutes = 0 } ∷ [])) [
          | none ↦ none
          | some states ↦ pick scored mode policy.max_reserve_opportunities states
        ]
