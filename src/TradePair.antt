-- ===== src/TradePair.antt =====
-- services/trade_pair.service.ts: the trade buckets of the exchanges of an asset are inserted in the database.
-- Whether an insert succeeds stands beside its message; `N` is the type of prices. The streams come from
-- tardis-dev, which gives the messages and the buckets of src/computables/trade_bucket.ts.
pub mod Rows
mod Tests
use volatility_services.Prelude.{
  ℕ, suc, String, Bool, true, false, Option, none, some, List, [], ◌∷◌, if◌then◌else◌,
}
use volatility_services.Prelude.Int.{ℤ}
use volatility_services.Prelude.Keys.{symbol_key}
use volatility_services.TradeBucket.{TradeBucket, new, run}
use volatility_services.TradeBucket as Buckets
use volatility_services.OptionBucket.{Header, time}

-- The fields that are read of a trade.
pub record TradeData (N : Type 0) : Type 0 where
  pub timestamp : ℤ
  pub exchange : String
  pub symbol : String
  pub id : Option String
  pub price : N
  pub local_timestamp : ℤ

pub data Message (N : Type 0) : Type 0 where
  trade : TradeData N → Message N
  trade_bucket : TradeBucket N → Message N

-- The row that is inserted.
pub record TradePair : Type 0 where
  pub timestamp : ℤ
  pub exchange : String
  pub symbol : String
  pub id : Option String
  pub price : String
  pub local_timestamp : ℤ

pub record Captures (N : Type 0) : Type 0 where
  pub last_message : Option (Message N)
  -- the rows that the database took, the latest first
  pub inserted : List TradePair
  -- the calls of onStreamError
  pub stream_errors : ℕ

abbrev pub nothing_captured : {N : Type 0} → Captures N
nothing_captured = record { last_message = none; inserted = []; stream_errors = 0 }

-- An exchange and the symbol of the pair there.
pub record ExchangePair : Type 0 where
  pub exchange : String
  pub symbols : List String

abbrev pair : String → String → ExchangePair
pair exchange symbol = record { exchange = exchange; symbols = symbol ∷ [] }

abbrev pub eth_pairs : List ExchangePair
eth_pairs =
    pair "binance" "ETHUSDT"
    ∷ pair "bitstamp" "ETHUSD"
    ∷ pair "coinbase" "ETH-USD"
    ∷ pair "ftx" "ETH-USD"
    ∷ pair "gemini" "ETHUSD"
    ∷ pair "kraken" "ETH/USD"
    ∷ []

abbrev pub btc_pairs : List ExchangePair
btc_pairs =
    pair "binance" "BTCUSDT"
    ∷ pair "bitstamp" "BTCUSD"
    ∷ pair "coinbase" "BTC-USD"
    ∷ pair "ftx" "BTC-USD"
    ∷ pair "gemini" "BTCUSD"
    ∷ pair "kraken" "BTC/USD"
    ∷ []

abbrev pub sol_pairs : List ExchangePair
sol_pairs =
    pair "binance" "SOLUSDT"
    ∷ pair "bitstamp" "SOLUSD"
    ∷ pair "coinbase" "SOL-USD"
    ∷ pair "ftx" "SOL-USD"
    ∷ pair "gemini" "SOLUSD"
    ∷ pair "kraken" "SOL/USD"
    ∷ []

-- `tradePairAssets[asset]`, undefined for another asset
unfoldable pub select_trade_pairs : String → Option (List ExchangePair)
select_trade_pairs asset =
    if symbol_key.same asset "ETH"
    then some eth_pairs
    else if symbol_key.same asset "BTC"
    then some btc_pairs
    else if symbol_key.same asset "SOL"
    then some sol_pairs
    else none

module _ {N : Type 0} (print : N → String) where
  -- A bucket is stored at its close timestamp, a trade at its timestamp.
  abbrev pub row_of : Message N → TradePair
  row_of (trade t) = record {
    timestamp = t.timestamp;
    exchange = t.exchange;
    symbol = t.symbol;
    id = t.id;
    price = print t.price;
    local_timestamp = t.local_timestamp;
  }
  row_of (trade_bucket b) = record {
    timestamp = b.close_timestamp;
    exchange = b.exchange;
    symbol = b.symbol;
    id = b.id;
    price = print b.price;
    local_timestamp = b.local_timestamp;
  }

  -- `executeInsert` with the `catch` behind it
  unfoldable pub execute_insert : TradePair → Bool → Captures N → Captures N
  execute_insert row true s = record s { inserted = row ∷ s.inserted }
  execute_insert row false s = record s { stream_errors = suc s.stream_errors }

  unfoldable pub capture_message : Message N → Bool → Captures N → Captures N
  unfolding execute_insert
  capture_message m inserts s =
      execute_insert (row_of m) inserts (record s { last_message = some m })

  -- Only buckets are captured.
  unfoldable pub process_messages : List (Message N × Bool) → Captures N → Captures N
  unfolding capture_message
  process_messages [] s = s
  process_messages ((trade t, inserts) ∷ ms) s = process_messages ms s
  process_messages ((trade_bucket b, inserts) ∷ ms) s =
      process_messages ms (capture_message (trade_bucket b) inserts s)
