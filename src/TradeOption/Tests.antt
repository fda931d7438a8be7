-- ===== src/TradeOption/Tests.antt =====
-- Two buckets of a symbol, the second of which is not inserted, and a summary.
use volatility_services.Prelude.{
  ℕ, ◌+◌, ◌≡◌, refl, String, Bool, true, false, Option, none, some, List, [], ◌∷◌, length,
}
use volatility_services.Prelude.Dict.{get}
use volatility_services.Prelude.Keys.{symbol_key}
use volatility_services.OptionBucket.{call}
use volatility_services.Expiries.{eth}
use volatility_services.TradeOption.{
  OptionData, Message, option_summary, option_bucket, nothing_captured, build_option_lists, row_of,
  process_messages, capture_message, execute_insert, last_row, buckets, process_messages-latest,
}

abbrev print : ℕ → String
print n = "n"

abbrev data_at : ℕ → Option ℕ → OptionData ℕ
data_at at price = record {
  timestamp = at;
  exchange = "deribit";
  symbol = "A";
  local_timestamp = at;
  strike_price = 3000;
  expiration_date = 100;
  last_price = price;
  underlying_price = none;
  option_type = call;
  mark_iv = none;
  delta = none;
}

abbrev messages : List (Message ℕ × Bool)
messages =
    (option_bucket (data_at 1 (some 5)), true)
    ∷ (option_summary (data_at 2 (some 6)), true)
    ∷ (option_bucket (data_at 3 none), false)
    ∷ []

process_messages-latest_example :
    (get "A" (process_messages eth print messages nothing_captured).latest
      ≡ last_row eth print "A" messages)
    × (length (process_messages eth print messages nothing_captured).inserted
          + (process_messages eth print messages nothing_captured).stream_errors
        ≡ buckets eth print messages)
process_messages-latest_example = process_messages-latest eth print messages "A"

process_messages-runs :
    (get "A" (process_messages eth print messages nothing_captured).latest
      ≡ some (row_of eth print (data_at 3 none)))
    × ((process_messages eth print messages nothing_captured).stream_errors ≡ 1)
unfolding process_messages capture_message execute_insert
process_messages-runs = (refl, refl)

build_option_lists-runs :
    build_option_lists
      (record { id = "A"; expiry = some 7 } ∷ record { id = "B"; expiry = none } ∷ [])
    ≡ "A" ∷ []
unfolding build_option_lists
build_option_lists-runs = refl
