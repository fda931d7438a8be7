-- ===== src/Aave/Liquidity.antt =====
-- The answer of src/datasources/aave.ts, of what `provideContract` ends with; and the secrets that are read before.
use volatility_services.Prelude.{ℕ, ◌≡◌, refl, ap, ◌∙◌, inl, String, [], ◌∷◌, Result, ok}
use volatility_services.Errors.{Value, Classes}
use volatility_services.Async.{
  Settled, fulfilled, rejected, Outcome, ResultAsync, map-ok, map-rejects, map-passes,
}
use volatility_services.Secrets.{
  Secrets, Reading, all_secrets, secret, require_read_default, require_read_default-fulfilled,
}
use volatility_services.Rate.{RateResponse}
use volatility_services.Aave.{
  Numbers, Remote, infura_url, handler, read_key, provide_contract, default_web3, liquidity_of,
  provide_aave_liquidity_value, rate_response, responded, provide_rate_response,
}

module _ (async : ResultAsync) (classes : Classes) (id : ℕ) (r : Reading) where
  pub read_key-environment :
      (name : String)
      → read_key async classes id r name ≡ fulfilled (ok (secret name (all_secrets r.env)))
  read_key-environment name =
      let (secrets, read, at) = require_read_default-fulfilled r (name ∷ []) in
      map-ok async (λ s. fulfilled (secret name s))
        (async.from_promise Secrets (require_read_default r (name ∷ []))
          (handler async classes id r))
        secrets (secret name (all_secrets r.env))
        (ap (λ x. async.from_promise Secrets x (handler async classes id r)) read
          ∙ async.from_fulfilled Secrets secrets (handler async classes id r))
        (ap fulfilled (at name (inl refl)))

  pub default_web3-environment :
      default_web3 async classes id r ≡ fulfilled (ok (infura_url r.env.infura_proj_id))
  default_web3-environment =
      map-ok async (λ key. fulfilled (infura_url key))
        (read_key async classes id r "INFURA_PROJ_ID") r.env.infura_proj_id
        (infura_url r.env.infura_proj_id) (read_key-environment "INFURA_PROJ_ID") refl

module _ {Abi Contract N : Type 0} (numbers : Numbers N) (remote : Remote Abi Contract N) where
  module _ (async : ResultAsync) (classes : Classes) (id : ℕ) (r : Reading) where
    abbrev pub provided : String → Settled (Result Value Contract)
    provided = provide_contract numbers remote async classes id r

    abbrev web3 : Outcome String
    web3 = default_web3 async classes id r

    abbrev contracted : Outcome (Result Value Contract)
    contracted = async.map String (Result Value Contract) provided web3

    abbrev pub node : String
    node = infura_url r.env.infura_proj_id

    abbrev response_of : Outcome N → Settled (RateResponse N)
    response_of value = responded numbers (async.unwrap_or N (numbers.of_nat 0) value)

    -- What is answered, of the contract or of what `provideContract` rejects with.
    abbrev pub answer : Settled (RateResponse N)
    answer = provide_rate_response numbers remote async classes id r

    pub answer-rejects : (v : Value) → provided node ≡ rejected v → answer ≡ rejected v
    unfolding provide_rate_response provide_aave_liquidity_value
    answer-rejects v h =
        ap response_of (
          map-passes async (liquidity_of numbers remote async classes id r) contracted v (
            map-rejects async provided web3 node v (default_web3-environment async classes id r) h))
        ∙ ap (responded numbers) (async.unwrap_rejected N (numbers.of_nat 0) v)

    pub answer-no_liquidity :
        (c : Result Value Contract) (v : Value)
        → provided node ≡ fulfilled c
        → liquidity_of numbers remote async classes id r c ≡ rejected v
        → answer ≡ rejected v
    unfolding provide_rate_response provide_aave_liquidity_value
    answer-no_liquidity c v h k =
        ap response_of (
          map-rejects async (liquidity_of numbers remote async classes id r) contracted c v
            (map-ok async provided web3 node c (default_web3-environment async classes id r) h) k)
        ∙ ap (responded numbers) (async.unwrap_rejected N (numbers.of_nat 0) v)

    pub answer-liquidity :
        (c : Result Value Contract) (value : N)
        → provided node ≡ fulfilled c
        → liquidity_of numbers remote async classes id r c ≡ fulfilled value
        → answer ≡ fulfilled (rate_response numbers value)
    unfolding provide_rate_response provide_aave_liquidity_value
    answer-liquidity c value h k =
        ap response_of (
          map-ok async (liquidity_of numbers remote async classes id r) contracted c value
            (map-ok async provided web3 node c (default_web3-environment async classes id r) h) k)
        ∙ ap (responded numbers) (async.unwrap_ok N value (numbers.of_nat 0))
