-- ===== src/TradePair/Tests.antt =====
-- The buckets of two seconds of trades at one exchange, the second of which is not inserted.
use volatility_services.Prelude.{
  ℕ, ◌+◌, ◌≡◌, refl, String, Bool, true, false, none, some, List, [], ◌∷◌, inl, inr, length, All,
  arith,
}
use volatility_services.Prelude.Int.{pos, ◌+ℤ◌, scale, floor_div}
use volatility_services.OptionBucket.{time, Header, generated}
use volatility_services.TradeBucket.{
  TradeBucket, Trade, Message as Received, trade as sold, other, new, run, compute, update, flush,
}
use volatility_services.TradePair.{
  Message, trade_bucket, nothing_captured, row_of, process_messages, capture_message,
  execute_insert, select_trade_pairs, sol_pairs,
}
use volatility_services.TradePair.Rows.{buckets, IsComputed, IsOf, process_messages-IsOf}

abbrev print : ℕ → String
print n = "n"

abbrev head_at : ℕ → Header
head_at t = record {
  symbol = "ETHUSDT";
  exchange = "binance";
  timestamp = pos t;
  local_timestamp = pos t;
}

abbrev sale : ℕ → Trade ℕ
sale price = record { id = none; price = price }

abbrev received : List (Received ℕ)
received =
    sold (head_at 1200) (sale 10)
    ∷ sold (head_at 1900) (sale 11)
    ∷ sold (head_at 2100) (sale 12)
    ∷ other (head_at 3000)
    ∷ []

abbrev bucket : ℕ → ℕ → ℕ → ℕ → ℕ → ℕ → TradeBucket ℕ
bucket trades price opens closes end at = record {
  type = "trade_bucket";
  symbol = "ETHUSDT";
  exchange = "binance";
  name = generated "trade_bucket" 1000 "sec";
  interval = 1000;
  kind = time;
  id = none;
  trades = trades;
  open_timestamp = pos opens;
  close_timestamp = pos closes;
  price = price;
  timestamp = pos end;
  local_timestamp = pos at;
}

abbrev messages : List (Message ℕ × Bool)
messages =
    (trade_bucket (bucket 2 11 1200 1900 2000 2100), true)
    ∷ (trade_bucket (bucket 1 12 2100 2100 3000 3000), false)
    ∷ []

messages-IsComputed : All (IsComputed 0 time 1000) (buckets messages)
unfolding run compute flush update new floor_div scale ◌+ℤ◌
messages-IsComputed = ((received, inl refl), ((received, inr (inl refl)), tt))

process_messages-IsOf_example :
    All
      (IsOf print 1000 (buckets messages))
      (process_messages print messages nothing_captured).inserted
    × (length (process_messages print messages nothing_captured).inserted
          + (process_messages print messages nothing_captured).stream_errors
        ≡ length (buckets messages))
process_messages-IsOf_example =
    process_messages-IsOf print 0 time 1000 messages (omega arith) messages-IsComputed

process_messages-stores :
    (process_messages print messages nothing_captured).inserted
    ≡ row_of print (trade_bucket (bucket 2 11 1200 1900 2000 2100)) ∷ []
unfolding process_messages capture_message execute_insert
process_messages-stores = refl

select_trade_pairs-runs :
    (select_trade_pairs "SOL" ≡ some sol_pairs) × (select_trade_pairs "DOGE" ≡ none)
unfolding select_trade_pairs
select_trade_pairs-runs = (refl, refl)
