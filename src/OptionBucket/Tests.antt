-- ===== src/OptionBucket/Tests.antt =====
-- A stream of three summaries and a disconnect through one-second buckets.
use volatility_services.Prelude.{
  ℕ, ◌+◌, ◌≤◌, ◌≡◌, refl, none, some, List, [], ◌∷◌, map, length, All, arith,
}
use volatility_services.Prelude.Int.{ℤ, pos, ◌+ℤ◌, scale, floor_div}
use volatility_services.OptionBucket.{
  time, call, OptionBucket, Header, Summary, Message, option_summary, other, Computable, new, flush,
  update, compute, run,
}
use volatility_services.OptionBucket.Count.{compute-yields_once, held, received, run-counts}
use volatility_services.OptionBucket.Periods.{IsClosed, new-run-IsClosed}

abbrev head_at : ℕ → Header
head_at t = record {
  symbol = "ETH-1APR22-1500-P";
  exchange = "deribit";
  timestamp = pos t;
  local_timestamp = pos t;
}

abbrev quote : ℕ → Summary ℕ
quote price = record {
  underlying_price = some 3000;
  last_price = some price;
  strike_price = 1500;
  expiration_date = pos 1648800000000;
  option_type = call;
  delta = none;
  mark_iv = none;
}

abbrev messages : List (Message ℕ)
messages =
    option_summary (head_at 1200) (quote 10)
    ∷ option_summary (head_at 1900) (quote 11)
    ∷ option_summary (head_at 2100) (quote 12)
    ∷ other (head_at 3000)
    ∷ []

abbrev fresh : Computable ℕ
fresh = new 0 time 1000 none

-- Two buckets: of two summaries, up to second 2, and of one, up to second 3.
run-messages :
    map {B = ℕ × ℕ × ℤ}
      (λ (b : OptionBucket ℕ). (b.summaries, b.last_price, b.timestamp))
      (run 0 messages fresh).0
    ≡ (2, 11, pos 2000) ∷ (1, 12, pos 3000) ∷ []
unfolding run compute flush update new floor_div scale ◌+ℤ◌
run-messages = refl

compute-yields_once_example :
    length (compute 0 (option_summary (head_at 2100) (quote 12)) fresh).0 ≤ 1
compute-yields_once_example = compute-yields_once 0 (option_summary (head_at 2100) (quote 12)) fresh

run-counts_example :
    held (run 0 messages fresh).0 + (run 0 messages fresh).1.in_progress.summaries
    ≡ fresh.in_progress.summaries + received messages
run-counts_example = run-counts 0 messages fresh

new-run-IsClosed_example : All (IsClosed 1000) (run 0 messages fresh).0
new-run-IsClosed_example = new-run-IsClosed 0 time 1000 none messages (omega arith)
