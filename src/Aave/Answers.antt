-- ===== src/Aave/Answers.antt =====
-- What provideRateResponse of src/datasources/aave.ts answers with.
use volatility_services.Prelude.{
  ℕ, ◌≡◌, refl, ap, ◌∙◌, subst, sym, ◌⊎◌, inl, inr, String, Option, List, Result, ok, err,
}
use volatility_services.Errors.{Value, Handled, returned, threw, thrown, Classes}
use volatility_services.Errors.Handlers as Handlers
use volatility_services.Errors.Handlers.{handle_as_moleculer_error-Outcome}
use volatility_services.Async.{
  Settled, fulfilled, rejected, Outcome, ResultAsync, Settled-cases, map-ok, map-rejects,
}
use volatility_services.Secrets.{Reading}
use volatility_services.Rate.{RateResponse}
use volatility_services.Aave.{
  Numbers, GetAbiResponse, ParsedAbiResponse, Remote, lending_pool_v2, lending_pool_v2_impl,
  lending_pool_v2_proxy, provide_address_url, infura_url, fourth, fetch_contract_from_abi_provider,
  handler, read_key, provide_etherscan, contract_of, provide_contract, rate_response,
  provide_rate_response, parsed, transformed, rate_among,
}
use volatility_services.Aave.Liquidity.{
  read_key-environment, answer-rejects, answer-no_liquidity, answer-liquidity,
}

module _ {Abi Contract N : Type 0} (numbers : Numbers N) (remote : Remote Abi Contract N) where
  module _ (async : ResultAsync) (classes : Classes) (id : ℕ) (r : Reading) where
    abbrev etherscan_url : String
    etherscan_url = provide_address_url r.env.etherscan_api_key lending_pool_v2_impl

    abbrev contract_from : Abi → Settled Contract
    contract_from abi =
        remote.contract (infura_url r.env.infura_proj_id) abi
          (remote.to_checksum_address lending_pool_v2_proxy)

    abbrev data_of : Contract → Settled (List N)
    data_of contract = remote.get_reserve_data contract (remote.to_checksum_address lending_pool_v2)

    -- How an answer comes about, of the calls made in their order.
    pub data Answers : Settled (RateResponse N) → Type 0 where
      not_fetched : (v : Value) → remote.post etherscan_url ≡ rejected v → Answers (rejected v)
      not_parsed :
          (response : GetAbiResponse) (v : Value)
          → remote.post etherscan_url ≡ fulfilled response
          → remote.parse response.result ≡ rejected v
          → Answers (rejected v)
      no_contract :
          (response : GetAbiResponse) (abi : Abi) (v : Value) (h : Handled)
          → remote.post etherscan_url ≡ fulfilled response
          → remote.parse response.result ≡ fulfilled abi
          → contract_from abi ≡ rejected v
          → Handlers.Outcome classes v h
          → Answers (rejected (thrown h))
      not_read :
          (response : GetAbiResponse) (abi : Abi) (contract : Contract) (v : Value)
          → remote.post etherscan_url ≡ fulfilled response
          → remote.parse response.result ≡ fulfilled abi
          → contract_from abi ≡ fulfilled contract
          → data_of contract ≡ rejected v
          → Answers (rejected v)
      rated :
          (response : GetAbiResponse) (abi : Abi) (contract : Contract) (values : List N)
          → remote.post etherscan_url ≡ fulfilled response
          → remote.parse response.result ≡ fulfilled abi
          → contract_from abi ≡ fulfilled contract
          → data_of contract ≡ fulfilled values
          → Answers (fulfilled (rate_response numbers (fourth numbers.undefined values)))

    abbrev fetched : Settled (ParsedAbiResponse Abi)
    fetched = fetch_contract_from_abi_provider numbers remote etherscan_url

    abbrev url_known : Outcome String
    url_known =
        async.map (Option String) String
          (λ key. fulfilled (provide_address_url key lending_pool_v2_impl))
          (read_key async classes id r "ETHERSCAN_API_KEY")

    url_known-etherscan_url : url_known ≡ fulfilled (ok etherscan_url)
    url_known-etherscan_url =
        map-ok async (λ key. fulfilled (provide_address_url key lending_pool_v2_impl))
          (read_key async classes id r "ETHERSCAN_API_KEY") r.env.etherscan_api_key etherscan_url
          (read_key-environment async classes id r "ETHERSCAN_API_KEY") refl

    abbrev abi_known : Outcome (ParsedAbiResponse Abi)
    abi_known = provide_etherscan numbers remote async classes id r lending_pool_v2_impl

    etherscan-ok :
        (abi : ParsedAbiResponse Abi) → fetched ≡ fulfilled abi → abi_known ≡ fulfilled (ok abi)
    unfolding provide_etherscan
    etherscan-ok abi h =
        map-ok async (fetch_contract_from_abi_provider numbers remote) url_known etherscan_url abi
          url_known-etherscan_url h

    etherscan-rejects : (v : Value) → fetched ≡ rejected v → abi_known ≡ rejected v
    unfolding provide_etherscan
    etherscan-rejects v h =
        map-rejects async (fetch_contract_from_abi_provider numbers remote) url_known etherscan_url
          v url_known-etherscan_url h

    abbrev provided : String → Settled (Result Value Contract)
    provided = provide_contract numbers remote async classes id r

    abbrev node : String
    node = infura_url r.env.infura_proj_id

    abbrev answer : Settled (RateResponse N)
    answer = provide_rate_response numbers remote async classes id r

    abbrev through : Outcome (ParsedAbiResponse Abi) → Settled (Result Value Contract)
    through = contract_of numbers remote async classes id r node

    provided-failed :
        (abi : ParsedAbiResponse Abi) (v : Value) (h : Handled)
        → abi_known ≡ fulfilled (ok abi)
        → contract_from abi.result ≡ rejected v
        → handler async classes id r v ≡ h
        → (provided node ≡ rejected (thrown h)) ⊎ (provided node ≡ fulfilled (err (thrown h)))
    provided-failed abi v (returned w) e k f = inr (
        ap through e
        ∙ ap (λ x. async.from_throwable Contract x (handler async classes id r)) k
        ∙ async.throwable_returned Contract v w (handler async classes id r) f)
    provided-failed abi v (threw w) e k f = inl (
        ap through e
        ∙ ap (λ x. async.from_throwable Contract x (handler async classes id r)) k
        ∙ async.throwable_threw Contract v w (handler async classes id r) f)

    provided-ok :
        (abi : ParsedAbiResponse Abi) (c : Contract)
        → abi_known ≡ fulfilled (ok abi)
        → contract_from abi.result ≡ fulfilled c
        → provided node ≡ fulfilled (ok c)
    provided-ok abi c e k =
        ap through e
        ∙ ap (λ x. async.from_throwable Contract x (handler async classes id r)) k
        ∙ async.throwable_fulfilled Contract c (handler async classes id r)

    answer-not_known : (v : Value) → fetched ≡ rejected v → answer ≡ rejected v
    answer-not_known v h =
        answer-rejects numbers remote async classes id r v (ap through (etherscan-rejects v h))

    answer-no_contract :
        (abi : ParsedAbiResponse Abi) (v : Value)
        → abi_known ≡ fulfilled (ok abi)
        → contract_from abi.result ≡ rejected v
        → answer ≡ rejected (thrown (handler async classes id r v))
    answer-no_contract abi v e k =
        elim (provided-failed abi v (handler async classes id r v) e k refl) [
          | inl h ↦
              answer-rejects numbers remote async classes id r
                (thrown (handler async classes id r v)) h
          | inr h ↦
              answer-no_liquidity numbers remote async classes id r
                (err (thrown (handler async classes id r v)))
                (thrown (handler async classes id r v)) h refl
        ]

    abbrev abi_of : GetAbiResponse → Abi → ParsedAbiResponse Abi
    abi_of response abi = record {
      status = response.status;
      message = response.message;
      result = abi;
    }

    fetched-parsed :
        (response : GetAbiResponse) (x : Settled Abi)
        → remote.post etherscan_url ≡ fulfilled response
        → remote.parse response.result ≡ x
        → fetched ≡ parsed numbers remote response x
    fetched-parsed response x e h =
        ap (transformed numbers remote) e ∙ ap (parsed numbers remote response) h

    contract-Answers :
        (response : GetAbiResponse) (abi : Abi)
        → remote.post etherscan_url ≡ fulfilled response
        → remote.parse response.result ≡ fulfilled abi
        → Answers answer
    contract-Answers response abi e f =
        let known : abi_known ≡ fulfilled (ok (abi_of response abi)) =
          etherscan-ok (abi_of response abi) (fetched-parsed response (fulfilled abi) e f) in
        elim (Settled-cases (contract_from abi)) [
          | inr (v, g) ↦ subst Answers (sym (answer-no_contract (abi_of response abi) v known g)) (
              no_contract response abi v (handler async classes id r v) e f g
                (handle_as_moleculer_error-Outcome classes id v))
          | inl (c, g) ↦ elim (Settled-cases (data_of c)) [
            | inr (v, k) ↦
                subst Answers
                  (sym (
                    answer-no_liquidity numbers remote async classes id r (ok c) v
                      (provided-ok (abi_of response abi) c known g)
                      (ap (rate_among numbers remote async classes id r) k)))
                  (not_read response abi c v e f g k)
            | inl (values, k) ↦
                subst Answers
                  (sym (
                    answer-liquidity numbers remote async classes id r (ok c)
                      (fourth numbers.undefined values)
                      (provided-ok (abi_of response abi) c known g)
                      (ap (rate_among numbers remote async classes id r) k)))
                  (rated response abi c values e f g k)
          ]
        ]

    -- A rate is answered only where Etherscan's interface was fetched, parsed and made a contract, and the
    -- contract's data was read: it is the data's fourth value. Where one of the four fails, the promise
    -- rejects; the 0 that is named for a failure is never answered for one.
    pub provide_rate_response-Answers :
        Answers (provide_rate_response numbers remote async classes id r)
    provide_rate_response-Answers = elim (Settled-cases (remote.post etherscan_url)) [
      | inr (v, e) ↦
          subst Answers (sym (answer-not_known v (ap (transformed numbers remote) e)))
            (not_fetched v e)
      | inl (response, e) ↦ elim (Settled-cases (remote.parse response.result)) [
        | inr (v, f) ↦
            subst Answers (sym (answer-not_known v (fetched-parsed response (rejected v) e f)))
              (not_parsed response v e f)
        | inl (abi, f) ↦ contract-Answers response abi e f
      ]
    ]
