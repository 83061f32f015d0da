-- ===== src/Gateway/Approved.antt =====
-- A route is taken exactly when it is approved for the call.
use pruebas_personalizadas.Prelude.Common.{
  ◌≤◌, ◌≡◌, refl, sym, ap, ◌∙◌, subst, ◌↔◌, String, Option, none, some, List, [], ◌∷◌, Bool, true,
  false, not, ◌&&◌, ◌⊎◌, inl, inr, arith,
}
use pruebas_personalizadas.Prelude.Tests.{
  leb, leb→le, le→leb, and-true, and-eq-true, Bool-cases, if◌then◌else◌, Option-cases, ltb-false,
  ltb-eq-false, not-false, some-injective,
}
use pruebas_personalizadas.Prelude.Lists.{length}
use pruebas_personalizadas.Prelude.Result.{ok, err, reject, ◌>>◌, ok-injective}
use pruebas_personalizadas.Prelude.Sets.{mem, subset}
use pruebas_personalizadas.Prelude.Floats.{Floats}
use pruebas_personalizadas.Gateway.Routes.{
  ModelRoute, Resolver, Demand, ResolutionStatus, input_modality_eq, output_modality_eq, is_real,
  route_of, refusal, resolve_route, decide, resolve, has_lengths, create_resolution,
  ResolutionError, Resolution, matches_status, resolved_by, unresolved,
}
use pruebas_personalizadas.Prelude.Eq.{string_eq}

module _ {F : Type 0} (floats : Floats F) (stable_id : List String → String) where
  -- A route with an installed adapter in real mode, within both budgets and both token limits, which has
  -- the modalities of the call and structured outputs.
  pub record IsApproved (resolver : Resolver F) (demand : Demand F) (route : ModelRoute F)
      : Type 0 where
    pub installed :
        (is_real resolver.mode && not (mem route.provider resolver.available_providers)) ≡ false
    pub call_budget : floats.lt demand.budget.max_cost_usd demand.budget.estimated_cost_usd ≡ false
    pub route_budget : floats.lt route.max_cost_usd demand.budget.estimated_cost_usd ≡ false
    pub input_tokens : demand.estimated_input_tokens ≤ route.max_input_tokens
    pub output_tokens : demand.spec.max_output_tokens ≤ route.max_output_tokens
    pub inputs : subset demand.inputs route.capabilities.input_modalities ≡ true
    pub outputs : subset demand.outputs route.capabilities.output_modalities ≡ true
    pub structured : route.capabilities.structured_outputs ≡ true

  -- A test in front of the rest of the chain of refusals.
  passed :
      {R : Type 0} (c : Bool) (x : R) (rest : Option R)
      → (if c then some x else rest) ≡ none
      → (c ≡ false) × (rest ≡ none)
  passed true x rest h = cc
  passed false x rest h = (refl, h)

  refusal-none :
      (resolver : Resolver F) (demand : Demand F) (route : ModelRoute F)
      → refusal floats stable_id resolver demand route ≡ none
      → IsApproved resolver demand route
  unfolding refusal
  refusal-none resolver demand route h =
      let (a, h1) = passed _ _ _ h in
      let (b, h2) = passed _ _ _ h1 in
      let (c, h3) = passed _ _ _ h2 in
      let (d, h4) = passed _ _ _ h3 in
      let (e, h5) = passed _ _ _ h4 in
      let (f, h6) = passed _ _ _ h5 in
      let (g, h7) = passed _ _ _ h6 in
      let (k, _) = passed _ _ _ h7 in
      record {
        installed = a;
        call_budget = b;
        route_budget = c;
        input_tokens = ltb-false _ _ d;
        output_tokens = ltb-false _ _ e;
        inputs = not-false f;
        outputs = not-false g;
        structured = not-false k;
      }

  refusal-eq-none :
      (resolver : Resolver F) (demand : Demand F) (route : ModelRoute F)
      → IsApproved resolver demand route
      → refusal floats stable_id resolver demand route ≡ none
  unfolding refusal
  refusal-eq-none resolver demand route k =
      rw
        (
          k.installed,
          k.call_budget,
          k.route_budget,
          ltb-eq-false _ _ k.input_tokens,
          ltb-eq-false _ _ k.output_tokens,
          k.inputs,
          k.outputs,
          k.structured,
        )
        refl

  -- No refusal counts as a resolution.
  refusal-status :
      (resolver : Resolver F) (demand : Demand F) (route : ModelRoute F) {reason : String}
      {status : ResolutionStatus}
      → refusal floats stable_id resolver demand route ≡ some (reason, status)
      → ¬ (status ≡ ResolutionStatus.resolved)
  unfolding refusal
  refusal-status resolver demand route {reason} {status} h e = ground arith

  resolve_route-cases :
      (resolver : Resolver F) (demand : Demand F) (route : ModelRoute F)
      → (IsApproved resolver demand route
          × (resolve_route floats stable_id resolver demand route
              ≡ resolved_by floats stable_id demand route))
        ⊎ ((reason : String) × (status : ResolutionStatus) × (refusal floats stable_id resolver
                demand route
              ≡ some (reason, status))
            × (resolve_route floats stable_id resolver demand route
                ≡ unresolved floats stable_id demand (route.route_id ∷ []) reason status))
  unfolding resolve_route
  resolve_route-cases resolver demand route =
      elim (Option-cases (refusal floats stable_id resolver demand route)) [
        | inl n ↦ inl (refusal-none resolver demand route n, rw (n, resolve_route) refl)
        | inr ((reason, status), e) ↦ inr (reason, status, e, rw (e, resolve_route) refl)
      ]

  decide-some :
      (mocked : ModelRoute F) (resolver : Resolver F) (demand : Demand F) {found : ModelRoute F}
      → route_of mocked demand.spec resolver ≡ some found
      → decide floats stable_id mocked resolver demand
        ≡ resolve_route floats stable_id resolver demand found
  unfolding decide
  decide-some mocked resolver demand e = rw (e, decide) refl

  decide-none :
      (mocked : ModelRoute F) (resolver : Resolver F) (demand : Demand F)
      → route_of mocked demand.spec resolver ≡ none
      → decide floats stable_id mocked resolver demand
        ≡ unresolved floats stable_id demand [] "REAL_ROUTE_NOT_CONFIGURED" ResolutionStatus.blocked
  unfolding decide
  decide-none mocked resolver demand e = rw (e, decide) refl

  unresolved-matches :
      (demand : Demand F) (ids : List String) (reason : String) (status : ResolutionStatus)
      → ¬ (status ≡ ResolutionStatus.resolved)
      → matches_status (unresolved floats stable_id demand ids reason status) ≡ true
  unfolding matches_status
  unresolved-matches demand ids reason ResolutionStatus.resolved n = absurd (n refl)
  unresolved-matches demand ids reason ResolutionStatus.needs_review n = refl
  unresolved-matches demand ids reason ResolutionStatus.blocked n = refl

  resolved-matches :
      (resolver : Resolver F) (demand : Demand F) (route : ModelRoute F)
      → IsApproved resolver demand route
      → matches_status (resolved_by floats stable_id demand route) ≡ true
  unfolding matches_status
  resolved-matches resolver demand route k = rw (k.inputs, k.outputs) refl

  -- A route is decided on exactly when it is configured and approved, and the validator accepts the outcome.
  decide_iff :
      (mocked : ModelRoute F) (resolver : Resolver F) (demand : Demand F)
      → (matches_status (decide floats stable_id mocked resolver demand) ≡ true)
        × ((route : ModelRoute F)
            → ((decide floats stable_id mocked resolver demand).route ≡ some route) ↔ (
                (route_of mocked demand.spec resolver ≡ some route)
                × IsApproved resolver demand route))
  decide_iff mocked resolver demand = elim (Option-cases (route_of mocked demand.spec resolver)) [
    | inl n ↦
        rw (decide-none mocked resolver demand n, n)
          (
            unresolved-matches demand [] _ ResolutionStatus.blocked (λ e. cc),
            λ route. (λ h. absurd (cc), λ h. absurd (cc)),
          )
    | inr (found, e) ↦
        rw (decide-some mocked resolver demand e, e)
          (elim (resolve_route-cases resolver demand found) [
            | inl (k, q) ↦ rw q (
              resolved-matches resolver demand found k,
              λ route. (
                λ h. (h, subst (λ x. IsApproved resolver demand x) (some-injective h) k),
                λ h. h.0,
              ),
            )
            | inr (reason, status, r, q) ↦ rw q (
              unresolved-matches demand (found.route_id ∷ []) reason status
                  (refusal-status resolver demand found r),
              λ route. (
                λ h. absurd (cc),
                λ h.
                    let k =
                      subst (λ x. IsApproved resolver demand x) (sym (some-injective h.0)) h.1 in
                    absurd (cc (refusal-eq-none resolver demand found k, r)),
              ),
            )
          ])
  ]

  and-short : (a b : Bool) → (a && b && true && true && true) ≡ (a && b)
  and-short a b = ground arith

  -- The lists of a resolution that can be empty are those that the call asks for.
  decide-has_lengths :
      (mocked : ModelRoute F) (resolver : Resolver F) (demand : Demand F)
      → has_lengths (decide floats stable_id mocked resolver demand)
        ≡ (leb 1 (length demand.inputs) && leb 1 (length demand.outputs))
  unfolding has_lengths
  decide-has_lengths mocked resolver demand =
      let asked = leb 1 (length demand.inputs) in
      elim (Option-cases (route_of mocked demand.spec resolver)) [
        | inl n ↦ rw (decide-none mocked resolver demand n) (and-short asked _)
        | inr (found, e) ↦
            rw (decide-some mocked resolver demand e)
              (elim (resolve_route-cases resolver demand found) [
                | inl (k, q) ↦ rw q (and-short asked _)
                | inr (reason, status, r, q) ↦ rw q (and-short asked _)
              ])
      ]

  -- What a call must ask for: at least one modality each way.
  pub record IsAsked (demand : Demand F) : Type 0 where
    pub inputs : 1 ≤ length demand.inputs
    pub outputs : 1 ≤ length demand.outputs

  resolve-asked :
      (mocked : ModelRoute F) (resolver : Resolver F) (demand : Demand F)
      → IsAsked demand
      → resolve floats stable_id mocked resolver demand
        ≡ ok (decide floats stable_id mocked resolver demand)
  unfolding resolve create_resolution reject ◌>>◌
  resolve-asked mocked resolver demand a =
      let lengths : has_lengths (decide floats stable_id mocked resolver demand) ≡ true =
        decide-has_lengths mocked resolver demand
        ∙ and-eq-true (le→leb _ _ a.inputs) (le→leb _ _ a.outputs) in
      rw (lengths, (decide_iff mocked resolver demand).0) refl

  resolve-unasked :
      (mocked : ModelRoute F) (resolver : Resolver F) (demand : Demand F)
      → (leb 1 (length demand.inputs) && leb 1 (length demand.outputs)) ≡ false
      → resolve floats stable_id mocked resolver demand ≡ err ResolutionError.length_out_of_range
  unfolding resolve create_resolution reject ◌>>◌
  resolve-unasked mocked resolver demand f = rw (decide-has_lengths mocked resolver demand ∙ f) refl

  IsAsked-cases :
      (demand : Demand F)
      → IsAsked demand ⊎ ((leb 1 (length demand.inputs) && leb 1 (length demand.outputs)) ≡ false)
  IsAsked-cases demand =
      elim (Bool-cases (leb 1 (length demand.inputs) && leb 1 (length demand.outputs))) [
        | inl t ↦
            let (i, o) = and-true t in
            inl (record { inputs = leb→le _ _ i; outputs = leb→le _ _ o })
        | inr f ↦ inr f
      ]

  -- The resolution of a call can only fail where the call asks for no modality one way, and there it does: it
  -- satisfies its validator whatever its outcome. It exposes a route exactly when the call asks for
  -- modalities both ways and the route configured for its prompt (or, in mock mode, the mock route) is that
  -- route and approved for the call: it has an adapter in real mode, is within the budget of the call, its
  -- own and both token limits, and has the modalities of the call and structured outputs.
  pub resolve_iff :
      (mocked : ModelRoute F) (resolver : Resolver F) (demand : Demand F)
      → ((IsAsked demand
            × ((resolution : Resolution F) × (resolve floats stable_id mocked resolver demand
                  ≡ ok resolution)
                × (matches_status resolution ≡ true)))
          ⊎ ((¬ IsAsked demand)
              × (resolve floats stable_id mocked resolver demand
                  ≡ err ResolutionError.length_out_of_range)))
        × ((route : ModelRoute F)
            → ((resolution : Resolution F) × (resolve floats stable_id mocked resolver demand
                  ≡ ok resolution)
                × (resolution.route ≡ some route))
              ↔ (IsAsked demand
                  × (route_of mocked demand.spec resolver ≡ some route)
                  × IsApproved resolver demand route))
  resolve_iff mocked resolver demand =
      let (matches, exposes) = decide_iff mocked resolver demand in
      elim (IsAsked-cases demand) [
        | inl a ↦
            let e = resolve-asked mocked resolver demand a in
            (
              inl (a, (decide floats stable_id mocked resolver demand, e, matches)),
              λ route. (
                λ (resolution, h, r).
                    let (k, approved) =
                      (exposes route).0
                        (ap (λ (x : Resolution F). x.route) (ok-injective (sym e ∙ h)) ∙ r) in
                    (a, k, approved),
                λ (_, k, approved). (
                  decide floats stable_id mocked resolver demand,
                  e,
                  (exposes route).1 (k, approved),
                ),
              ),
            )
        | inr f ↦
            let e = resolve-unasked mocked resolver demand f in
            (
              inr (λ a. unasked a f, e),
              λ route.
                  (λ (resolution, h, r). absurd (cc (e, h)), λ (a, _, _). absurd (unasked a f)),
            )
      ]
    where
      unasked :
          IsAsked demand
          → ¬ ((leb 1 (length demand.inputs) && leb 1 (length demand.outputs)) ≡ false)
      unasked a f = cc (and-eq-true (le→leb _ _ a.inputs) (le→leb _ _ a.outputs), f)
