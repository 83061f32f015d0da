-- ===== src/Gateway/Attempts.antt =====
-- The loop of `ModelGateway.invoke` around the adapter. What the adapter answers at each attempt, what
-- becomes of an answer (`settle`: its validation, and the single repair) and the ledger of the attempts
-- stand apart: the loop is modelled for any adapter and any way to settle.
use pruebas_personalizadas.Prelude.Common.{ℕ, zero, suc, ◌+◌, List, [], ◌∷◌, ◌++◌}
use pruebas_personalizadas.Prelude.Tests.{if◌then◌else◌, leb, ltb}
use pruebas_personalizadas.Prelude.Result.{Result, ok, err, reject, ◌>>◌}

-- How the call of an adapter ends: with an answer, or by one of the exceptions that the loop tells apart.
pub data Reply (A : Type 0) : Type 0 where
  timed_out rate_limited transient safety_block failed : Reply A
  answered : A → Reply A

pub data CallOutcome : Type 0 where
  timeout rate_limit provider_error safety_blocked : CallOutcome

-- The attempt and the result of a ledger of a call without an answer.
pub record CallLedger : Type 0 where
  pub attempt : ℕ
  pub outcome : CallOutcome

pub data GatewayError : Type 0 where
  gateway_timeout gateway_provider_error gateway_safety_block : List CallLedger → GatewayError

pub data ConfigError : Type 0 where
  retries_out_of_range : ConfigError

-- The check on `max_retries` of `GatewayConfig.__post_init__`.
unfoldable pub create_retries : ℕ → Result ConfigError ℕ
create_retries max_retries = do
  reject (ltb 2 max_retries) ConfigError.retries_out_of_range
  ok max_retries

-- `min(self.config.max_retries, spec.max_transient_retries)`
unfoldable pub retry_limit : ℕ → ℕ → ℕ
retry_limit max_retries max_transient_retries =
    if leb max_retries max_transient_retries then max_retries else max_transient_retries

module _ {A B : Type 0} (adapter : ℕ → Reply A)
    (settle : A → ℕ → List CallLedger → Result GatewayError B) where
  abbrev pub noted : List CallLedger → ℕ → CallOutcome → List CallLedger
  noted ledgers attempt outcome = ledgers ++ record { attempt = attempt; outcome = outcome } ∷ []

  -- The reaction to a reply, where `again` says what an attempt that may be repeated leads to.
  unfoldable pub react :
      Reply A
      → ℕ
      → List CallLedger
      → (again : List CallLedger → (List CallLedger → GatewayError) → Result GatewayError B)
      → Result GatewayError B
  react timed_out attempt ledgers again =
      again (noted ledgers attempt CallOutcome.timeout) GatewayError.gateway_timeout
  react rate_limited attempt ledgers again =
      again (noted ledgers attempt CallOutcome.rate_limit) GatewayError.gateway_provider_error
  react transient attempt ledgers again =
      again (noted ledgers attempt CallOutcome.provider_error) GatewayError.gateway_provider_error
  react safety_block attempt ledgers again =
      err (GatewayError.gateway_safety_block (noted ledgers attempt CallOutcome.safety_blocked))
  react failed attempt ledgers again =
      err (GatewayError.gateway_provider_error (noted ledgers attempt CallOutcome.provider_error))
  react (answered a) attempt ledgers again = settle a attempt ledgers

  -- The attempts from one on, of which `left` may be repeated.
  unfoldable pub attempts : ℕ → ℕ → List CallLedger → Result GatewayError B
  unfolding react
  attempts zero attempt ledgers =
      react (adapter attempt) attempt ledgers (λ ls raise. err (raise ls))
  attempts (suc left) attempt ledgers =
      react (adapter attempt) attempt ledgers (λ ls raise. attempts left (attempt + 1) ls)

  -- `for attempt in range(1, retry_limit + 2)`
  unfoldable pub invoke : ℕ → Result GatewayError B
  unfolding attempts
  invoke limit = attempts limit 1 []
