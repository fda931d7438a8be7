-- ===== src/Ingest/Tests.antt =====
-- Five messages of two expiries, with a cacher that is an association list.
use volatility_services.Prelude.{ℕ, ◌≡◌, refl, String, Option, none, some, List, [], ◌∷◌, ok}
use volatility_services.Prelude.Dict.{Dict, get, set, get-set}
use volatility_services.Prelude.Keys.{symbol_key}
use volatility_services.Ingest.{
  Summary, Cacher, empty, process, fetch_option_summaries, cache_message, add,
  summary_with_defaults,
}

abbrev cacher : Cacher (Summary ℕ ℕ) (Dict String (Summary ℕ ℕ))
cacher = record { get_entry = get; set_entry = set; get_set = λ k j v s. get-set k j v s }

abbrev message : String → ℕ → ℕ → Option ℕ → Summary ℕ ℕ
message symbol at expires price = record {
  symbol = symbol;
  timestamp = at;
  local_timestamp = at;
  expiration_date = expires;
  best_ask_price = price;
  best_bid_price = price;
  underlying_price = some 3000;
  rest = 0;
}

abbrev messages : List (Summary ℕ ℕ)
messages =
    message "A" 1 7 (some 5)
    ∷ message "B" 2 14 none
    ∷ message "C" 3 7 (some 6)
    ∷ message "A" 4 7 none
    ∷ message "B" 5 14 (some 8)
    ∷ []

fetch_option_summaries-runs :
    fetch_option_summaries 0 cacher 7 (process 0 cacher messages (empty (some [])))
    ≡ ok (some (message "A" 4 7 (some 0)) ∷ some (message "C" 3 7 (some 6)) ∷ [])
unfolding fetch_option_summaries process cache_message add summary_with_defaults
fetch_option_summaries-runs = refl
