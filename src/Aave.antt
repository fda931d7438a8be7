-- ===== src/Aave.antt =====
-- src/datasources/aave.ts with src/datasources/etherscan.ts: the riskless rate out of AAVE's lending pool, whose
-- interface Etherscan answers. HTTP, JSON and web3 are functions whose promises are settled; what throws is a
-- rejection of the promise that calls it. `N` is the type of JavaScript's values that are used as numbers.
pub mod Liquidity
pub mod Answers
mod Tests
use Prim.Native.Nat.{◌^◌}
use volatility_services.Prelude.{ℕ, String, Option, none, some, List, [], ◌∷◌, Result, ok, err}
use volatility_services.Prelude.Strings.{append}
use volatility_services.Errors.{
  Value, Handled, thrown, Classes, message_text, handle_as_moleculer_error,
}
use volatility_services.Async.{Settled, fulfilled, rejected, Outcome, ResultAsync}
use volatility_services.Secrets.{Secrets, Reading, require_read_default, secret}
use volatility_services.Rate.{RateResponse}

-- The values that the code computes with.
pub record Numbers (N : Type 0) : Type 0 where
  pub of_nat : ℕ → N
  pub undefined : N
  pub mul : N → N → N
  pub div : N → N → N

-- `response.data` of Etherscan
pub record GetAbiResponse : Type 0 where
  pub status : String
  pub message : String
  pub result : String

pub record ParsedAbiResponse (Abi : Type 0) : Type 0 where
  pub status : String
  pub message : String
  pub result : Abi

-- axios, `JSON.parse` and web3: a provider is made of its address alone.
pub record Remote (Abi Contract N : Type 0) : Type 0 where
  pub post : String → Settled GetAbiResponse
  pub parse : String → Settled Abi
  pub to_checksum_address : String → String
  pub contract : String → Abi → String → Settled Contract
  pub get_reserve_data : Contract → String → Settled (List N)

abbrev pub lending_pool_v2 : String
lending_pool_v2 = "0xc02aaa39b223fe8d0a0e5c4f27ead9083c756cc2"

abbrev pub lending_pool_v2_impl : String
lending_pool_v2_impl = "0xc6845a5c768bf8d7681249f8927877efda425baf"

abbrev pub lending_pool_v2_proxy : String
lending_pool_v2_proxy = "0x7d2768de32b0b80b7a3454c06bdac94a69ddc7a9"

unfoldable pub provide_address_url : Option String → String → String
provide_address_url api_key address =
    append "https://api.etherscan.io/api?module=contract&action=getabi&address="
      (append address (append "&apikey=" (message_text api_key)))

unfoldable pub infura_url : Option String → String
infura_url project_id = append "https://mainnet.infura.io/v3/" (message_text project_id)

-- The fourth of the values, 0 being the first.
abbrev pub fourth : {N : Type 0} → N → List N → N
fourth undefined (a ∷ b ∷ c ∷ d ∷ rest) = d
fourth undefined _ = undefined

module _ {N : Type 0} (numbers : Numbers N) where
  abbrev pub to_liquidity_rate : N → N
  to_liquidity_rate value =
      numbers.mul (numbers.of_nat 100) (numbers.div value (numbers.of_nat (10 ^ 27)))

  -- The answer without its time.
  abbrev pub rate_response : N → RateResponse N
  rate_response value = record {
    contract_value = value;
    riskless_rate = to_liquidity_rate value;
    riskless_rate_source = "AAVE";
  }

  abbrev pub responded : Settled N → Settled (RateResponse N)
  responded (fulfilled value) = fulfilled (rate_response value)
  responded (rejected v) = rejected v

-- The clients that read a secret first; `id` is the identity of an error that is made of another one.
module _ (async : ResultAsync) (classes : Classes) (id : ℕ) (r : Reading) where
  abbrev pub handler : Value → Handled
  handler = handle_as_moleculer_error classes id

  abbrev pub read_key : String → Outcome (Option String)
  read_key name =
      async.map Secrets (Option String) (λ secrets. fulfilled (secret name secrets))
        (async.from_promise Secrets (require_read_default r (name ∷ [])) handler)

  abbrev pub default_web3 : Outcome String
  default_web3 =
      async.map (Option String) String (λ key. fulfilled (infura_url key))
        (read_key "INFURA_PROJ_ID")

module _ {Abi Contract N : Type 0} (numbers : Numbers N) (remote : Remote Abi Contract N) where
  abbrev pub parsed : GetAbiResponse → Settled Abi → Settled (ParsedAbiResponse Abi)
  parsed response (fulfilled abi) =
      fulfilled (record { status = response.status; message = response.message; result = abi })
  parsed response (rejected v) = rejected v

  abbrev pub transform_abi_response_result : GetAbiResponse → Settled (ParsedAbiResponse Abi)
  transform_abi_response_result response = parsed response (remote.parse response.result)

  abbrev pub transformed : Settled GetAbiResponse → Settled (ParsedAbiResponse Abi)
  transformed (fulfilled response) = transform_abi_response_result response
  transformed (rejected v) = rejected v

  abbrev pub fetch_contract_from_abi_provider : String → Settled (ParsedAbiResponse Abi)
  fetch_contract_from_abi_provider address = transformed (remote.post address)

  module _ (async : ResultAsync) (classes : Classes) (id : ℕ) (r : Reading) where
    unfoldable pub provide_etherscan : String → Outcome (ParsedAbiResponse Abi)
    provide_etherscan address =
        async.map String (ParsedAbiResponse Abi) fetch_contract_from_abi_provider (
          async.map (Option String) String (λ key. fulfilled (provide_address_url key address))
            (read_key async classes id r "ETHERSCAN_API_KEY"))

    -- What follows the interface, of the address of the node that web3 asks.
    abbrev pub contract_of :
        String → Outcome (ParsedAbiResponse Abi) → Settled (Result Value Contract)
    contract_of web3 (fulfilled (ok abi)) =
        async.from_throwable Contract
          (remote.contract web3 abi.result (remote.to_checksum_address lending_pool_v2_proxy))
          (handler async classes id r)
    contract_of web3 (fulfilled (err v)) = rejected (thrown (handler async classes id r v))
    contract_of web3 (rejected v) = rejected v

    abbrev pub provide_contract : String → Settled (Result Value Contract)
    provide_contract web3 = contract_of web3 (provide_etherscan lending_pool_v2_impl)

    abbrev pub rate_among : Settled (List N) → Settled N
    rate_among (fulfilled values) = fulfilled (fourth numbers.undefined values)
    rate_among (rejected v) = rejected v

    abbrev pub liquidity_of : Result Value Contract → Settled N
    liquidity_of (ok contract) =
        rate_among (remote.get_reserve_data contract (remote.to_checksum_address lending_pool_v2))
    liquidity_of (err v) = rejected v

    unfoldable pub provide_aave_liquidity_value : Outcome N
    provide_aave_liquidity_value = async.map (Result Value Contract) N liquidity_of (
        async.map String (Result Value Contract) provide_contract (default_web3 async classes id r))

    unfoldable pub provide_rate_response : Settled (RateResponse N)
    provide_rate_response =
        responded numbers (async.unwrap_or N (numbers.of_nat 0) provide_aave_liquidity_value)
