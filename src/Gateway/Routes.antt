-- ===== src/Gateway/Routes.antt =====
-- `ModelRouteResolver` and the records of routes. `F` is the type of costs and temperatures. A resolution
-- identifier is the digest `stable_id` of its parts, which is an argument.
use pruebas_personalizadas.Prelude.Common.{
  ℕ, String, Option, none, some, List, [], ◌∷◌, Bool, true, false, not, ◌&&◌,
}
use pruebas_personalizadas.Prelude.Tests.{if◌then◌else◌, ltb, leb}
use pruebas_personalizadas.Prelude.Lists.{length}
use pruebas_personalizadas.Prelude.Result.{Result, ok, reject, ◌>>◌}
use pruebas_personalizadas.Prelude.Eq.{Eq, ◌==◌, string_eq, eq_of}
use pruebas_personalizadas.Prelude.Sets.{mem, subset}
use pruebas_personalizadas.Prelude.Floats.{Floats}

pub data ReasoningEffort : Type 0 where
  minimal low medium high : ReasoningEffort

pub data InputModality : Type 0 where
  text image pdf audio video : InputModality

abbrev InputModality-discrete : Discrete InputModality
InputModality-discrete = hlevel

instance abbrev pub input_modality_eq : Eq InputModality
input_modality_eq = eq_of InputModality-discrete

pub data OutputModality : Type 0 where
  text structured_json : OutputModality

abbrev OutputModality-discrete : Discrete OutputModality
OutputModality-discrete = hlevel

instance abbrev pub output_modality_eq : Eq OutputModality
output_modality_eq = eq_of OutputModality-discrete

pub data GatewayMode : Type 0 where
  mock real : GatewayMode

pub data ResolutionStatus : Type 0 where
  resolved needs_review blocked : ResolutionStatus

pub data ResolutionError : Type 0 where
  length_out_of_range status_mismatch : ResolutionError

pub record ModelCapabilities : Type 0 where
  pub input_modalities : List InputModality
  pub output_modalities : List OutputModality
  pub structured_outputs : Bool
  pub max_context_tokens : ℕ
  pub supported_reasoning_efforts : List ReasoningEffort
  pub supports_zero_data_retention : Bool
  pub supported_regions : List String

pub record ModelRoute (F : Type 0) : Type 0 where
  pub route_id : String
  pub task : String
  pub provider : String
  pub model : String
  pub model_snapshot : String
  pub reasoning_effort : ReasoningEffort
  pub temperature : F
  pub capabilities : ModelCapabilities
  pub retention_mode : String
  pub region : Option String
  pub max_cost_usd : F
  pub max_input_tokens : ℕ
  pub max_output_tokens : ℕ
  pub fallback_route_id : Option String
  pub reason_codes : List String

pub record PromptSpec (F : Type 0) : Type 0 where
  pub prompt_id : String
  pub prompt_version : String
  pub system_prompt_id : String
  pub task : String
  pub input_schema_name : String
  pub output_schema_name : String
  pub reasoning_effort : ReasoningEffort
  pub temperature : F
  pub max_output_tokens : ℕ
  pub max_transient_retries : ℕ

pub record CallBudget (F : Type 0) : Type 0 where
  pub max_cost_usd : F
  pub estimated_cost_usd : F

pub record Resolution (F : Type 0) : Type 0 where
  pub resolution_id : String
  pub task : String
  pub status : ResolutionStatus
  pub required_input_modalities : List InputModality
  pub required_output_modalities : List OutputModality
  pub route : Option (ModelRoute F)
  pub evaluated_route_ids : List String
  pub reason_codes : List String

-- What a call asks of its route.
pub record Demand (F : Type 0) : Type 0 where
  pub spec : PromptSpec F
  pub inputs : List InputModality
  pub outputs : List OutputModality
  pub budget : CallBudget F
  pub estimated_input_tokens : ℕ

pub record Resolver (F : Type 0) : Type 0 where
  pub mode : GatewayMode
  pub real_routes : List (String × ModelRoute F)
  pub available_providers : List String

abbrev pub is_real : GatewayMode → Bool
is_real GatewayMode.mock = false
is_real GatewayMode.real = true

abbrev is_resolved : ResolutionStatus → Bool
is_resolved ResolutionStatus.resolved = true
is_resolved ResolutionStatus.needs_review = false
is_resolved ResolutionStatus.blocked = false

module _ {F : Type 0} where
  -- `_mock_route`. The texts that are built from the prompt's identifier are arguments, and `cent` is the
  -- cost 0.01.
  unfoldable pub mock_route : F → String → String → String → PromptSpec F → ModelRoute F
  mock_route cent route_id model policy spec = record {
    route_id = route_id;
    task = spec.task;
    provider = "other";
    model = model;
    model_snapshot = "deterministic-mock-v1";
    reasoning_effort = spec.reasoning_effort;
    temperature = spec.temperature;
    capabilities = record {
      input_modalities = InputModality.text ∷ InputModality.image ∷ InputModality.pdf ∷ [];
      output_modalities = OutputModality.structured_json ∷ [];
      structured_outputs = true;
      max_context_tokens = 250000;
      supported_reasoning_efforts =
          ReasoningEffort.minimal ∷ ReasoningEffort.low ∷ ReasoningEffort.medium
          ∷ ReasoningEffort.high ∷ [];
      supports_zero_data_retention = true;
      supported_regions = "local-offline" ∷ [];
    };
    retention_mode = "ZDR";
    region = some "local-offline";
    max_cost_usd = cent;
    max_input_tokens = 250000;
    max_output_tokens = if ltb 16000 spec.max_output_tokens then spec.max_output_tokens else 16000;
    fallback_route_id = none;
    reason_codes = "MOCK_MODE" ∷ "NO_NETWORK" ∷ policy ∷ [];
  }

  -- `self.real_routes.get(spec.prompt_id)`
  unfoldable pub real_route : String → List (String × ModelRoute F) → Option (ModelRoute F)
  real_route prompt_id [] = none
  real_route prompt_id ((key, route) ∷ routes) =
      let later = real_route prompt_id routes in if key == prompt_id then some route else later

  unfoldable pub route_of : ModelRoute F → PromptSpec F → Resolver F → Option (ModelRoute F)
  unfolding real_route
  route_of mocked spec resolver =
      if is_real resolver.mode then real_route spec.prompt_id resolver.real_routes else some mocked

  module _ (floats : Floats F) (stable_id : List String → String) where
    -- `_unresolved`
    abbrev pub unresolved : Demand F → List String → String → ResolutionStatus → Resolution F
    unresolved demand evaluated reason status = record {
      resolution_id = stable_id ("resolution" ∷ demand.spec.prompt_id ∷ reason ∷ []);
      task = demand.spec.task;
      status = status;
      required_input_modalities = demand.inputs;
      required_output_modalities = demand.outputs;
      route = none;
      evaluated_route_ids = evaluated;
      reason_codes = reason ∷ [];
    }

    abbrev pub resolved_by : Demand F → ModelRoute F → Resolution F
    resolved_by demand route = record {
      resolution_id =
          stable_id ("resolution" ∷ demand.spec.prompt_id ∷ route.route_id ∷ "resolved" ∷ []);
      task = demand.spec.task;
      status = ResolutionStatus.resolved;
      required_input_modalities = demand.inputs;
      required_output_modalities = demand.outputs;
      route = some route;
      evaluated_route_ids = route.route_id ∷ [];
      reason_codes = "PROMPT_ROUTE_APPROVED" ∷ "CAPABILITIES_AND_POLICY_MATCH" ∷ [];
    }

    -- The reason for which a route is not taken, and the status that it gives, in order.
    unfoldable pub refusal :
        Resolver F → Demand F → ModelRoute F → Option (String × ResolutionStatus)
    refusal resolver demand route =
        if is_real resolver.mode && not (mem route.provider resolver.available_providers)
        then some ("REAL_ADAPTER_NOT_CONFIGURED", ResolutionStatus.blocked)
        else (if floats.lt demand.budget.max_cost_usd demand.budget.estimated_cost_usd
            then some ("CALL_BUDGET_EXCEEDED", ResolutionStatus.blocked)
            else (if floats.lt route.max_cost_usd demand.budget.estimated_cost_usd
                then some ("ROUTE_BUDGET_EXCEEDED", ResolutionStatus.blocked)
                else (if ltb route.max_input_tokens demand.estimated_input_tokens
                    then some ("INPUT_TOKEN_LIMIT_EXCEEDED", ResolutionStatus.blocked)
                    else (if ltb route.max_output_tokens demand.spec.max_output_tokens
                        then some ("OUTPUT_TOKEN_LIMIT_EXCEEDED", ResolutionStatus.blocked)
                        else (if not (subset demand.inputs route.capabilities.input_modalities)
                            then some ("INPUT_MODALITY_UNSUPPORTED", ResolutionStatus.needs_review)
                            else (if not
                                  (subset demand.outputs route.capabilities.output_modalities)
                                then some
                                    ("OUTPUT_MODALITY_UNSUPPORTED", ResolutionStatus.needs_review)
                                else (if not route.capabilities.structured_outputs
                                    then some
                                        ("STRUCTURED_OUTPUTS_REQUIRED", ResolutionStatus.blocked)
                                    else none)))))))

    unfoldable pub resolve_route : Resolver F → Demand F → ModelRoute F → Resolution F
    unfolding refusal
    resolve_route resolver demand route = elim (refusal resolver demand route) [
      | none ↦ resolved_by demand route
      | some (reason, status) ↦ unresolved demand (route.route_id ∷ []) reason status
    ]

    -- What is built for a call, before its fields are checked; `mocked` is the mock route of the prompt.
    unfoldable pub decide : ModelRoute F → Resolver F → Demand F → Resolution F
    unfolding resolve_route route_of
    decide mocked resolver demand = elim (route_of mocked demand.spec resolver) [
      | none ↦ unresolved demand [] "REAL_ROUTE_NOT_CONFIGURED" ResolutionStatus.blocked
      | some route ↦ resolve_route resolver demand route
    ]

  -- `resolution_matches_status`, the validator of a resolution
  unfoldable pub matches_status : Resolution F → Bool
  matches_status resolution = elim resolution.route [
    | none ↦ not (is_resolved resolution.status)
    | some route ↦
        is_resolved resolution.status
        && subset resolution.required_input_modalities route.capabilities.input_modalities
        && subset resolution.required_output_modalities route.capabilities.output_modalities
  ]

  -- The lengths of the lists of a resolution.
  unfoldable pub has_lengths : Resolution F → Bool
  has_lengths resolution =
      leb 1 (length resolution.required_input_modalities)
      && leb 1 (length resolution.required_output_modalities)
      && leb (length resolution.evaluated_route_ids) 100
      && leb 1 (length resolution.reason_codes)
      && leb (length resolution.reason_codes) 100

  -- The construction of a resolution: the lengths of its lists, then the validator.
  unfoldable pub create_resolution : Resolution F → Result ResolutionError (Resolution F)
  unfolding has_lengths matches_status
  create_resolution resolution = do
    reject (not (has_lengths resolution)) ResolutionError.length_out_of_range
    reject (not (matches_status resolution)) ResolutionError.status_mismatch
    ok resolution

  -- `ModelRouteResolver.resolve`, which raises where the resolution cannot be built.
  unfoldable pub resolve :
      Floats F
      → (List String → String)
      → ModelRoute F
      → Resolver F
      → Demand F
      → Result ResolutionError (Resolution F)
  unfolding decide create_resolution
  resolve floats stable_id mocked resolver demand =
      create_resolution (decide floats stable_id mocked resolver demand)
