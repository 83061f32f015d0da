-- ===== src/Gateway/Governed.antt =====
-- What the loop of attempts does, whatever the adapter answers.
use pruebas_personalizadas.Prelude.Common.{
  ℕ, zero, suc, ◌+◌, ◌≤◌, ◌≡◌, refl, ap, subst, ◌∙◌, List, [], Bool, true, false, ◌&&◌, ◌⊎◌, inl,
  inr, arith,
}
use pruebas_personalizadas.Prelude.Tests.{Bool-cases, ltb-false, and-eq-true}
use pruebas_personalizadas.Prelude.Result.{Result, ok, err, reject->>-eq-ok, ok-injective}
use pruebas_personalizadas.Gateway.Attempts.{
  Reply, timed_out, rate_limited, transient, safety_block, failed, answered, CallOutcome,
  CallLedger, GatewayError, create_retries, retry_limit, noted, react, attempts, invoke,
}

-- The replies after which an attempt may be repeated.
abbrev pub is_retryable : {A : Type 0} → Reply A → Bool
is_retryable timed_out = true
is_retryable rate_limited = true
is_retryable transient = true
is_retryable safety_block = false
is_retryable failed = false
is_retryable (answered a) = false

abbrev outcome_of : {A : Type 0} → Reply A → CallOutcome
outcome_of timed_out = CallOutcome.timeout
outcome_of rate_limited = CallOutcome.rate_limit
outcome_of transient = CallOutcome.provider_error
outcome_of safety_block = CallOutcome.safety_blocked
outcome_of failed = CallOutcome.provider_error
outcome_of (answered a) = CallOutcome.provider_error

abbrev raise_of : {A : Type 0} → Reply A → List CallLedger → GatewayError
raise_of timed_out = GatewayError.gateway_timeout
raise_of r = GatewayError.gateway_provider_error

module _ {A B : Type 0} (adapter : ℕ → Reply A)
    (settle : A → ℕ → List CallLedger → Result GatewayError B) where
  -- The last of `n` more attempts.
  abbrev last_of : ℕ → ℕ → ℕ
  last_of attempt zero = attempt
  last_of attempt (suc n) = last_of (attempt + 1) n

  -- Whether `n` attempts from one on all had replies after which it may be repeated.
  abbrev pub all_retryable : ℕ → ℕ → Bool
  all_retryable attempt zero = true
  all_retryable attempt (suc n) = is_retryable (adapter attempt) && all_retryable (attempt + 1) n

  -- The ledgers of `n` attempts from one on.
  abbrev pub ledgers_of : ℕ → ℕ → List CallLedger → List CallLedger
  ledgers_of attempt zero ledgers = ledgers
  ledgers_of attempt (suc n) ledgers =
      ledgers_of (attempt + 1) n
        (noted adapter settle ledgers attempt (outcome_of (adapter attempt)))

  -- The reaction to the last reply: what may be repeated is raised.
  abbrev pub conclude : ℕ → List CallLedger → Result GatewayError B
  conclude attempt ledgers =
      react adapter settle (adapter attempt) attempt ledgers (λ ls raise. err (raise ls))

  react-again :
      (r : Reply A) (attempt : ℕ) (ledgers : List CallLedger)
      (again : List CallLedger → (List CallLedger → GatewayError) → Result GatewayError B)
      → is_retryable r ≡ true
      → react adapter settle r attempt ledgers again
        ≡ again (noted adapter settle ledgers attempt (outcome_of r)) (raise_of r)
  unfolding react
  react-again timed_out attempt ledgers again t = refl
  react-again rate_limited attempt ledgers again t = refl
  react-again transient attempt ledgers again t = refl
  react-again safety_block attempt ledgers again t = cc
  react-again failed attempt ledgers again t = cc
  react-again (answered a) attempt ledgers again t = cc

  react-done :
      (r : Reply A) (attempt : ℕ) (ledgers : List CallLedger)
      (again other : List CallLedger → (List CallLedger → GatewayError) → Result GatewayError B)
      → is_retryable r ≡ false
      → react adapter settle r attempt ledgers again ≡ react adapter settle r attempt ledgers other
  unfolding react
  react-done timed_out attempt ledgers again other f = cc
  react-done rate_limited attempt ledgers again other f = cc
  react-done transient attempt ledgers again other f = cc
  react-done safety_block attempt ledgers again other f = refl
  react-done failed attempt ledgers again other f = refl
  react-done (answered a) attempt ledgers again other f = refl

  -- The first attempt that is not repeated, of the ones that `left` allows.
  pub record IsGoverned (left attempt : ℕ) (ledgers : List CallLedger) : Type 0 where
    pub repeated : ℕ
    pub within : repeated ≤ left
    pub retryable : all_retryable attempt repeated ≡ true
    pub settled : (is_retryable (adapter (last_of attempt repeated)) ≡ false) ⊎ (repeated ≡ left)
    pub result :
        attempts adapter settle left attempt ledgers
        ≡ conclude (last_of attempt repeated) (ledgers_of attempt repeated ledgers)

  attempts-IsGoverned :
      (left attempt : ℕ) (ledgers : List CallLedger) → IsGoverned left attempt ledgers
  unfolding attempts
  attempts-IsGoverned zero attempt ledgers = record {
    repeated = 0;
    within = omega arith;
    retryable = refl;
    settled = inr refl;
    result = refl;
  }
  attempts-IsGoverned (suc left) attempt ledgers =
      elim (Bool-cases (is_retryable (adapter attempt))) [
        | inr f ↦ record {
          repeated = 0;
          within = omega arith;
          retryable = refl;
          settled = inl f;
          result = react-done (adapter attempt) attempt ledgers _ _ f;
        }
        | inl t ↦
            let next = noted adapter settle ledgers attempt (outcome_of (adapter attempt)) in
            let k = attempts-IsGoverned left (attempt + 1) next in
            record {
              repeated = suc k.repeated;
              within = omega (arith, k.within);
              retryable = and-eq-true t k.retryable;
              settled = elim k.settled [ inl f ↦ inl f | inr e ↦ inr (ap suc e) ];
              result = react-again (adapter attempt) attempt ledgers _ t ∙ k.result;
            }
      ]

  last_of-add : (attempt n : ℕ) → last_of attempt n ≡ attempt + n
  last_of-add attempt zero = omega arith
  last_of-add attempt (suc n) = omega (arith, last_of-add (attempt + 1) n)

  retry_limit_le : (a b : ℕ) → a ≤ 2 → retry_limit a b ≤ 2
  unfolding retry_limit
  retry_limit_le a b h = ground arith

  -- With the retries that a configuration accepts, a call makes at most three attempts, and stops at the
  -- first one that is not a timeout, a rate limit or a transient failure, or at the limit: a safety block
  -- or any other failure is never repeated. Its result is the reaction to that last reply, with one ledger
  -- for each attempt before it, in order.
  pub invoke-IsGoverned :
      (asked allowed : ℕ) {max_retries : ℕ}
      → create_retries asked ≡ ok max_retries
      → (n : ℕ) × (n ≤ 2)
        × (n ≤ retry_limit max_retries allowed)
        × (all_retryable 1 n ≡ true)
        × ((is_retryable (adapter (1 + n)) ≡ false) ⊎ (n ≡ retry_limit max_retries allowed))
        × (invoke adapter settle (retry_limit max_retries allowed)
            ≡ conclude (1 + n) (ledgers_of 1 n []))
  unfolding create_retries invoke
  invoke-IsGoverned asked allowed {max_retries} h =
      let (few, e) = reject->>-eq-ok _ _ _ h in
      let limit = retry_limit max_retries allowed in
      let k = attempts-IsGoverned limit 1 [] in
      let last = last_of-add 1 k.repeated in
      let small =
        retry_limit_le max_retries allowed
          (subst (λ x. x ≤ 2) (ok-injective e) (ltb-false _ _ few)) in
      (
        k.repeated,
        omega (arith, small, k.within),
        k.within,
        k.retryable,
        rw last at k.settled,
        k.result ∙ ap (λ x. conclude x (ledgers_of 1 k.repeated [])) last,
      )
