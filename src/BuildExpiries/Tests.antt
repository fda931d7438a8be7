-- ===== src/BuildExpiries/Tests.antt =====
-- The selection on five options of three expiries, with concrete libraries.
use volatility_services.Prelude.{ℕ, ◌+◌, ◌*◌, ◌≡◌, refl, some, List, [], ◌∷◌, ok, err}
use volatility_services.Prelude.Keys.{instant_key}
use volatility_services.TimePeriod.{milliseconds_per_day}
use volatility_services.BuildExpiries.{
  Instrument, no_near_symbols, sort, select_step, select, delete_all, future_options, with_near,
  build_expiries,
}
use volatility_services.BuildExpiries.Grouping.{vendor, day}
use volatility_services.BuildExpiries.Correct.{Outcome, build_expiries-Outcome}

abbrev option_at : ℕ → ℕ → Instrument
option_at listed n = record { id = "ETH-X"; listing = listed; expiry = day n }

abbrev instruments : List Instrument
instruments =
    option_at 0 120
    ∷ option_at 0 107
    ∷ option_at 0 128
    ∷ option_at 0 120
    ∷ option_at (day 101) 114
    ∷ option_at 0 99
    ∷ []

-- At day 100 and 14 days ahead: near is day 107, next day 120; day 114 is not listed yet and day 99
-- has passed.
build_expiries-runs :
    build_expiries vendor (day 100) 14 instruments
    ≡ ok (record {
      expiry_list = day 128 ∷ [];
      expiry_map = (day 120, "ETH-X" ∷ "ETH-X" ∷ []) ∷ (day 128, "ETH-X" ∷ []) ∷ [];
      near_expiry = day 107;
      next_expiry = day 120;
      near_symbols = "ETH-X" ∷ [];
      next_symbols = "ETH-X" ∷ "ETH-X" ∷ [];
      rollover_at = some (day 107);
    })
unfolding build_expiries with_near select select_step sort delete_all future_options
build_expiries-runs = refl

no_near_runs : build_expiries vendor (day 100) 1 instruments ≡ err no_near_symbols
unfolding build_expiries with_near select select_step sort delete_all future_options
no_near_runs = refl

build_expiries-Outcome_example :
    Outcome
      (day 100)
      (day 100 + 14 * milliseconds_per_day)
      instruments
      (build_expiries vendor (day 100) 14 instruments)
build_expiries-Outcome_example = build_expiries-Outcome vendor (day 100) 14 instruments
