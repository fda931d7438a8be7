-- ===== src/Aave/Tests.antt =====
-- A rate that is read, and a contract that web3 refuses.
use Prim.Native.Nat.{◌^◌}
use volatility_services.Prelude.{ℕ, ◌*◌, ◌/◌, ◌≡◌, refl, String, [], ◌∷◌}
use volatility_services.Prelude.Strings.{append}
use volatility_services.Errors.Example.{classes, duplicate}
use volatility_services.Async.{Settled, fulfilled, rejected}
use volatility_services.Async.Example.{neverthrow}
use volatility_services.Secrets.{require_read, require_read_default, default_client}
use volatility_services.Secrets.Example.{reading}
use volatility_services.Aave.{
  Numbers, Remote, provide_rate_response, provide_aave_liquidity_value, provide_etherscan,
  provide_address_url, infura_url,
}
use volatility_services.Aave.Answers.{Answers, provide_rate_response-Answers}

abbrev numbers : Numbers ℕ
numbers = record { of_nat = λ n. n; undefined = 0; mul = λ a b. a * b; div = λ a b. a / b }

abbrev remote : Settled String → Remote String String ℕ
remote contract = record {
  post = λ url. fulfilled (record { status = "1"; message = "OK"; result = url });
  parse = λ text. fulfilled text;
  to_checksum_address = λ address. address;
  contract = λ web3 abi address. contract;
  get_reserve_data = λ contract reserve. fulfilled (0 ∷ 1 ∷ 2 ∷ 3 * 10 ^ 27 ∷ 4 ∷ []);
}

provide_rate_response-Answers_example :
    Answers numbers
      (remote (rejected duplicate))
      neverthrow
      classes
      2
      reading
      (provide_rate_response numbers (remote (rejected duplicate)) neverthrow classes 2 reading)
provide_rate_response-Answers_example =
    provide_rate_response-Answers numbers (remote (rejected duplicate)) neverthrow classes 2 reading

provide_rate_response-runs :
    provide_rate_response numbers (remote (fulfilled "pool")) neverthrow classes 2 reading
    ≡ fulfilled (record {
      contract_value = 3 * 10 ^ 27;
      riskless_rate = 300;
      riskless_rate_source = "AAVE";
    })
unfolding provide_rate_response provide_aave_liquidity_value provide_etherscan provide_address_url
    infura_url append require_read_default require_read default_client
provide_rate_response-runs = refl
