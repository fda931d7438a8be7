-- ===== src/TradeBucket/Tests.antt =====
-- A stream of three trades and a disconnect through one-second buckets.
use volatility_services.Prelude.{ℕ, ◌≤◌, ◌≡◌, refl, none, List, [], ◌∷◌, map, length}
use volatility_services.Prelude.Int.{ℤ, pos, ◌+ℤ◌, scale, floor_div}
use volatility_services.OptionBucket.{time, Header}
use volatility_services.TradeBucket.{
  TradeBucket, Trade, Message, trade, other, Computable, new, flush, update, compute, run,
}
use volatility_services.TradeBucket.Count.{compute-yields_at_most_one}

abbrev head_at : ℕ → Header
head_at t = record {
  symbol = "ETHUSDT";
  exchange = "binance";
  timestamp = pos t;
  local_timestamp = pos t;
}

abbrev sale : ℕ → Trade ℕ
sale price = record { id = none; price = price }

abbrev messages : List (Message ℕ)
messages =
    trade (head_at 1200) (sale 10)
    ∷ trade (head_at 1900) (sale 11)
    ∷ trade (head_at 2100) (sale 12)
    ∷ other (head_at 3000)
    ∷ []

abbrev fresh : Computable ℕ
fresh = new 0 time 1000 none

-- Two buckets: of two trades, up to second 2, and of one, up to second 3.
run-messages :
    map {B = ℕ × ℕ × ℤ}
      (λ (b : TradeBucket ℕ). (b.trades, b.price, b.timestamp))
      (run 0 messages fresh).0
    ≡ (2, 11, pos 2000) ∷ (1, 12, pos 3000) ∷ []
unfolding run compute flush update new floor_div scale ◌+ℤ◌
run-messages = refl

compute-yields_at_most_one_example : length (compute 0 (trade (head_at 2100) (sale 12)) fresh).0 ≤ 1
compute-yields_at_most_one_example =
    compute-yields_at_most_one 0 (trade (head_at 2100) (sale 12)) fresh
