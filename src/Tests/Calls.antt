-- ===== src/Tests/Calls.antt =====
-- The gateway at a concrete route and a concrete adapter, with numbers for costs.
use pruebas_personalizadas.Prelude.Common.{
  ℕ, zero, suc, ◌+◌, ◌≤◌, ◌≡◌, refl, ◌↔◌, String, some, List, [], ◌∷◌, true, false, ◌⊎◌,
}
use pruebas_personalizadas.Prelude.Result.{err, Result, ok, reject, ◌>>◌}
use pruebas_personalizadas.Tests.Data.{scores}
use pruebas_personalizadas.Gateway.Routes.{
  ReasoningEffort, InputModality, OutputModality, GatewayMode, ModelRoute, PromptSpec, Resolver,
  Demand, mock_route, route_of, resolve, matches_status, Resolution, ResolutionError,
}
use pruebas_personalizadas.Gateway.Approved.{IsAsked, IsApproved, resolve_iff}
use pruebas_personalizadas.Gateway.Attempts.{
  Reply, rate_limited, answered, CallLedger, GatewayError, create_retries, retry_limit, invoke,
  attempts, react,
}
use pruebas_personalizadas.Gateway.Governed.{
  is_retryable, all_retryable, ledgers_of, conclude, invoke-IsGoverned,
}

abbrev join : List String → String
join parts = "id"

abbrev spec : PromptSpec ℕ
spec = record {
  prompt_id = "P08";
  prompt_version = "1";
  system_prompt_id = "S08";
  task = "review";
  input_schema_name = "In";
  output_schema_name = "Out";
  reasoning_effort = ReasoningEffort.low;
  temperature = 0;
  max_output_tokens = 4000;
  max_transient_retries = 2;
}

abbrev offline : Resolver ℕ
offline = record { mode = GatewayMode.mock; real_routes = []; available_providers = [] }

abbrev mocked : ModelRoute ℕ
mocked = mock_route 10 "route_mock_p08" "deterministic-mock-p08" "PROMPT_POLICY_P08" spec

abbrev demand : Demand ℕ
demand = record {
  spec = spec;
  inputs = InputModality.text ∷ [];
  outputs = OutputModality.structured_json ∷ [];
  budget = record { max_cost_usd = 25; estimated_cost_usd = 3 };
  estimated_input_tokens = 900;
}

resolve_iff_example :
    ((IsAsked scores join demand
        × ((resolution : Resolution ℕ) × (resolve scores join mocked offline demand ≡ ok resolution)
            × (matches_status resolution ≡ true)))
      ⊎ ((¬ IsAsked scores join demand)
          × (resolve scores join mocked offline demand ≡ err ResolutionError.length_out_of_range)))
    × ((route : ModelRoute ℕ)
        → ((resolution : Resolution ℕ) × (resolve scores join mocked offline demand ≡ ok resolution)
            × (resolution.route ≡ some route))
          ↔ (IsAsked scores join demand
              × (route_of mocked demand.spec offline ≡ some route)
              × IsApproved scores join offline demand route))
resolve_iff_example = resolve_iff scores join mocked offline demand

-- A rate limit at the first attempt, and then an answer.
abbrev slow_start : ℕ → Reply ℕ
slow_start zero = rate_limited
slow_start (suc zero) = rate_limited
slow_start (suc (suc n)) = answered 7

abbrev accept : ℕ → ℕ → List CallLedger → Result GatewayError ℕ
accept answer attempt ledgers = ok answer

answer_test : invoke slow_start accept 2 ≡ ok 7
unfolding invoke attempts react
answer_test = refl

retries_test : create_retries 2 ≡ ok 2
unfolding create_retries reject ◌>>◌
retries_test = refl

invoke-IsGoverned_example :
    (n : ℕ) × (n ≤ 2)
    × (n ≤ retry_limit 2 1)
    × (all_retryable slow_start accept 1 n ≡ true)
    × ((is_retryable (slow_start (1 + n)) ≡ false) ⊎ (n ≡ retry_limit 2 1))
    × (invoke slow_start accept (retry_limit 2 1)
        ≡ conclude slow_start accept (1 + n) (ledgers_of slow_start accept 1 n []))
invoke-IsGoverned_example = invoke-IsGoverned slow_start accept 2 1 retries_test
