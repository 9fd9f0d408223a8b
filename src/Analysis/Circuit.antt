-- ===== src/Analysis/Circuit.antt =====
-- The circuit breaker of a provider, and what a call is admitted on.
use promptlens_v.Prelude.{
  ℕ, suc, String, false, none, some, ◌≡◌, ◌≤◌, ◌<◌, ◌+◌, ◌*◌, ◌/◌, arith, String_eq, ◌↔◌,
}
use promptlens_v.Analysis.{
  AnalysisControlStore, AnalysisControlOptions, AnalysisControlError, CounterKey, enforce,
  record_provider_failure, counted, value_of, is_truthy, spoken, month_start_of,
}

module _ {K : Type 0} (store : AnalysisControlStore K) (options : AnalysisControlOptions) where
  -- A failure that brings the count of a provider's recent failures to the threshold opens its
  -- circuit: for the next 60 seconds every request to that provider, of any workspace, is refused
  -- before it is counted.
  pub failure_opens :
      (provider : String) (now later tenant budget : ℕ) (k : K)
      → options.failure_threshold
        ≤ suc (value_of (counted now (store.counter (CounterKey.failures provider) k)))
      → now ≤ later
      → later < now + 60 * 1000
      → let k1 = record_provider_failure store options provider now k in
        enforce store options tenant provider budget later k1
        ≡ (some AnalysisControlError.circuit_open, k1)
  unfolding enforce record_provider_failure
  failure_opens provider now later tenant budget k reached after before = ground (
    arith,
    store.incr_value now key k,
    store.get_lem later provider (store.set now provider "open" 60 k1),
    store.get_lem later provider (store.set now provider "open" 60 k2),
    store.set_circuit now 60 provider "open" provider k1,
    store.set_circuit now 60 provider "open" provider k2,
    String_eq.same_iff provider provider,
  )
    where
      key : CounterKey
      key = CounterKey.failures provider

      k1 : K
      k1 = (store.incr now key k).1

      k2 : K
      k2 = store.expire now key 60 k1

  -- A request is admitted exactly if the circuit of its provider is closed, the count of its minute
  -- is below the limit and the tokens that the workspace consumed this month are below its budget.
  pub enforce_admits :
      (tenant : ℕ) (provider : String) (budget now : ℕ) (k : K)
      → ((enforce store options tenant provider budget now k).0 ≡ none) ↔ (
          (is_truthy (spoken now (store.circuit provider k)) ≡ false)
          × (value_of
                (counted now (store.counter (CounterKey.rate tenant provider (now / 60000)) k))
              < options.requests_per_minute)
          × (options.consumed_tokens tenant (month_start_of now) < budget))
  unfolding enforce
  enforce_admits tenant provider budget now k = (
    λ h. (
      ground (arith, store.get_lem now provider k),
      ground (arith, store.incr_value now key k),
      ground arith,
    ),
    λ (closed, few, cheap).
        ground (arith, store.get_lem now provider k, store.incr_value now key k),
  )
    where
      key : CounterKey
      key = CounterKey.rate tenant provider (now / 60000)
