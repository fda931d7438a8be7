-- ===== src/Ws/Authorize/Tests.antt =====
-- Requests with a token of a concrete table.
use volatility_services.Prelude.{◌*◌, ◌≡◌, refl, String, not, none, some, [], ◌∷◌, Option, ok, err}
use volatility_services.TimePeriod.{milliseconds_per_day}
use volatility_services.Tokens.{
  AuthToken, api_key, expiry_timestamp, is_expired, create, generate, check,
}
use volatility_services.Tokens.Table.{table, secure}
use volatility_services.Prelude.Strings.{starts_with, slice}
use volatility_services.Ws.Authorize.{
  no_authorization_method, authorize, api_key_of, check_key, handle_authorize, bearer, succeeds,
  with_tokens, authorize-generate,
}

abbrev saved : AuthToken
saved = record {
  id = some 0;
  type = api_key;
  owner = "volatility";
  token = "k";
  expiry = some (7 * milliseconds_per_day);
  last_used_at = none;
}

abbrev no_query : String → Option String
no_query q = none

authorize-generate_example :
    (succeeds (authorize no_query (with_tokens secure table 5) (bearer "k") (saved ∷ [])).0
      ≡ not (is_expired (expiry_timestamp (some 7) 0) 5))
    × (succeeds (handle_authorize no_query (with_tokens secure table 5) (bearer "k") (saved ∷ [])).0
        ≡ not (is_expired (expiry_timestamp (some 7) 0) 5))
unfolding generate create
authorize-generate_example =
    authorize-generate no_query secure table
      (record { type = api_key; expire_in_num_days = some 7; expiry = none; owner = "volatility" })
      0 5 "k" [] (saved ∷ []) saved refl refl refl

-- A header of another scheme hides the key of the query.
basic_runs :
    (authorize
      (λ q. some "k")
      (with_tokens secure table 5)
      (record { authorization = some "Basic k"; query = "" })
      (saved ∷ [])).0
    ≡ err no_authorization_method
unfolding authorize api_key_of starts_with slice check_key
basic_runs = refl

query_runs :
    (authorize
      (λ q. some "k")
      (with_tokens secure table 5)
      (record { authorization = none; query = "apiKey=k" })
      (saved ∷ [])).0
    ≡ ok tt
unfolding authorize api_key_of starts_with slice check_key check
query_runs = refl
