-- ===== src/Ws/Estimates/Tests.antt =====
-- A replay of three summaries, a bucket and an index that cannot be computed.
use volatility_services.Prelude.{
  ℕ, ◌≡◌, refl, String, Option, none, some, List, [], ◌∷◌, map, length,
}
use volatility_services.Prelude.Dict.{Dict, get, set, get-set}
use volatility_services.Prelude.Keys.{symbol_key}
use volatility_services.Expiries.{MfivExpiry}
use volatility_services.Ingest.{
  Summary, Cacher, insufficient_data, empty, cache_message, add, summary_with_defaults,
  fetch_option_summaries,
}
use volatility_services.Ws.Estimates.{
  Bucket, option_summary, option_bucket, Params, process_replay, at_bucket,
}

abbrev cacher : Cacher (Summary ℕ ℕ) (Dict String (Summary ℕ ℕ))
cacher = record { get_entry = get; set_entry = set; get_set = λ k j v s. get-set k j v s }

abbrev message : String → ℕ → ℕ → Summary ℕ ℕ
message symbol at expires = record {
  symbol = symbol;
  timestamp = at;
  local_timestamp = at;
  expiration_date = expires;
  best_ask_price = some 5;
  best_bid_price = some 4;
  underlying_price = some 3000;
  rest = 0;
}

abbrev summaries : List (Summary ℕ ℕ)
summaries = message "A" 1 7 ∷ message "B" 2 14 ∷ message "A" 3 7 ∷ []

abbrev expiry : MfivExpiry
expiry = record { near_expiration = 7; next_expiration = 14; rollover = 0; asset = none }

abbrev bucket : Bucket ℕ
bucket = record { timestamp = 4; underlying_price = 3000 }

-- An index that is the number of its options.
abbrev compute : Params ℕ ℕ → Option ℕ
compute params = some (length params.options)

-- A bucket before the first summary ends the replay.
early_bucket_runs :
    (process_replay 0 cacher compute
      (some expiry)
      (option_bucket bucket ∷ map option_summary summaries)
      (empty (some []))).error
    ≡ some (insufficient_data 7)
unfolding process_replay at_bucket fetch_option_summaries cache_message add summary_with_defaults
early_bucket_runs = refl
