-- ===== src/Calculator/Platform.antt =====
-- What the calculator is given: its messages, its parameters for node-volatility-mfiv, and the
-- libraries as a `Platform` (dayjs in UTC, tardis-dev, node-volatility-mfiv). `N` is the type of
-- numbers such as prices, `Q` the rest of an option summary, which only node-volatility-mfiv reads.
use volatility_services.Prelude.{ℕ, ◌≡◌, String, Bool, Option, List, leb, nat_beq}
use volatility_services.Prelude.Int.{ℤ}
use volatility_services.Prelude.Text.{Text}
use volatility_services.Expiries.{Asset}
use volatility_services.BuildExpiries.{Instrument, Vendor}

pub record OptionSummary (N Q : Type 0) : Type 0 where
  pub symbol : String
  pub timestamp : ℕ
  pub expiration_date : ℕ
  pub underlying_price : Option N
  pub quote : Q

-- `getInterestRate()`, its rate in ten-thousandths.
pub record InterestRate : Type 0 where
  pub riskless_rate : ℕ
  pub riskless_rate_at : String
  pub riskless_rate_source : String

pub record MfivContext : Type 0 where
  pub rate : InterestRate
  pub time_period : Text
  pub exchange : String
  pub methodology : String
  pub asset : Asset

pub record MfivParams (N Q : Type 0) : Type 0 where
  pub at : ℕ
  pub near_date : ℕ
  pub next_date : ℕ
  pub options : List (OptionSummary N Q)
  pub underlying_price : N

pub record MfivResult (N : Type 0) : Type 0 where
  pub asset : Asset
  pub d_vol : Option N
  pub invd_vol : Option N
  pub value : Option N
  pub methodology : String
  pub estimated_for : ℕ

pub record Index (N : Type 0) : Type 0 where
  pub rate : InterestRate
  pub asset : Asset
  pub time_period : Text
  pub d_vol : N
  pub invd_vol : N
  pub value : N
  pub methodology : String
  pub timestamp : ℕ
  pub underlying_price : N
  pub near_expiry : ℕ
  pub next_expiry : ℕ

-- What is asked of tardis-dev.
pub data Request : Type 0 where
  replay_normalized : List String → ℕ → ℕ → Request
  stream_normalized : List String → Request

pub record Platform (N Q : Type 0) : Type 0 where
  pub nought : N
  pub vendor : Vendor
  -- dayjs.utc()
  pub clock : ℕ
  pub start_of_minute : ℕ → ℕ
  pub start_of_second : ℕ → ℕ
  -- `t.second()`
  pub second : ℕ → ℕ
  pub add_seconds : ℕ → ℕ → ℕ
  pub add_ms : ℕ → ℤ → ℕ
  -- `t.subtract(1, "minute")`
  pub minute_before : ℕ → ℕ
  -- `dayjs.duration(n, "minutes").asMilliseconds()`
  pub minutes_ms : ℕ → ℕ
  pub is_same : ℕ → ℕ → Bool
  pub is_before : ℕ → ℕ → Bool
  pub is_after : ℕ → ℕ → Bool
  pub is_same_or_after : ℕ → ℕ → Bool
  pub same : (a b : ℕ) → is_same a b ≡ nat_beq a b
  pub same_or_after : (a b : ℕ) → is_same_or_after a b ≡ leb b a
  -- What getInstrumentInfo answers when it is asked for the expiries at an instant.
  pub instruments : ℕ → List Instrument
  -- The messages that a stream yields before it ends.
  pub stream : Request → List (OptionSummary N Q)
  -- `none` where `compute` throws.
  pub compute : MfivContext → MfivParams N Q → Option (MfivResult N)
