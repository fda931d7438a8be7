-- ===== src/Expiries/Tests.antt =====
-- The examples of test/unit/lib/utils/expiry.spec.ts, and the theorems at concrete instants.
use volatility_services.Prelude.{ℕ, ◌+◌, ◌*◌, ◌≤◌, ◌<◌, ◌≡◌, ◌≢◌, refl, none, some, ok, err, arith}
use volatility_services.Prelude.Text.{Text, codes}
use volatility_services.TimePeriod.{
  milliseconds_per_day, bad_format, zero_period, time_period_to_integer,
}
use volatility_services.Expiries.{
  MfivExpiry, friday_t08, get_utc_day, expiry_type_to_ordinals, next_date, next_expiration,
  mfiv_dates,
}
use volatility_services.Expiries.Fridays.{
  IsFridayT08, IsSchedule, mfiv_dates-IsSchedule, mfiv_dates-rollover, mfiv_dates-misses_friday,
}

-- 2021-01-01T07:00:00.000Z and 2021-01-01T09:00:00.000Z
abbrev morning : ℕ
morning = 1609484400000

abbrev after_eight : ℕ
after_eight = 1609491600000

abbrev two_weeks : Text
two_weeks = codes "14D"

-- near 2021-01-08, next 2021-01-15, rollover 2021-01-01, each at 08:00
abbrev morning_dates : MfivExpiry
morning_dates = record {
  near_expiration = 1610092800000;
  next_expiration = 1610697600000;
  rollover = 1609488000000;
  asset = none;
}

morning_runs : mfiv_dates morning two_weeks friday_t08 none ≡ ok morning_dates
unfolding mfiv_dates next_expiration next_date expiry_type_to_ordinals time_period_to_integer
morning_runs = refl

after_eight_runs :
    mfiv_dates after_eight two_weeks friday_t08 none
    ≡ ok (record {
      near_expiration = 1610697600000;
      next_expiration = 1611302400000;
      rollover = 1610092800000;
      asset = none;
    })
unfolding mfiv_dates next_expiration next_date expiry_type_to_ordinals time_period_to_integer
after_eight_runs = refl

two_weeks_is_14 : time_period_to_integer two_weeks ≡ ok (some 14)
unfolding time_period_to_integer
two_weeks_is_14 = refl

one_day_is_1 : time_period_to_integer (codes "1D") ≡ ok (some 1)
unfolding time_period_to_integer
one_day_is_1 = refl

period_errors :
    (time_period_to_integer (codes "14d") ≡ err bad_format)
    × (time_period_to_integer (codes "D") ≡ err bad_format)
    × (time_period_to_integer (codes "0D") ≡ err zero_period)
unfolding time_period_to_integer
period_errors = (refl, refl, refl)

mfiv_dates-IsSchedule_example :
    (e : MfivExpiry) × (mfiv_dates morning two_weeks friday_t08 none ≡ ok e)
    × IsSchedule morning e
    × ((t : ℕ) → IsFridayT08 t → morning + 14 * milliseconds_per_day < t → e.next_expiration ≤ t)
mfiv_dates-IsSchedule_example = mfiv_dates-IsSchedule morning 14 two_weeks none two_weeks_is_14 refl

mfiv_dates-rollover_example :
    (1609487000000 < 1609488000000
      → mfiv_dates 1609487000000 two_weeks friday_t08 none ≡ ok morning_dates)
    × ((e' : MfivExpiry) × (mfiv_dates 1609488000000 two_weeks friday_t08 none ≡ ok e')
        × (e'.near_expiration ≡ 1610697600000))
mfiv_dates-rollover_example =
    mfiv_dates-rollover morning 1609487000000 14 two_weeks none morning_dates two_weeks_is_14 refl
      morning_runs (omega arith)

-- 2020-12-31T09:00:00.000Z is a Thursday.
mfiv_dates-misses_friday_example :
    (e : MfivExpiry) × (mfiv_dates 1609405200000 (codes "1D") friday_t08 none ≡ ok e)
    × (get_utc_day e.next_expiration ≢ 5)
mfiv_dates-misses_friday_example =
    mfiv_dates-misses_friday 1609405200000 1 (codes "1D") none one_day_is_1 (omega arith) refl
      (omega arith)
