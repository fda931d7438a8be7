-- ===== src/WeeklyRollover/Tests.antt =====
-- Concrete UTC arithmetic.
use volatility_services.Prelude.{◌+◌, ◌-◌, ◌*◌, ◌/◌, ◌≡◌, refl, none, ok}
use volatility_services.Prelude.Text.{codes, index_of, decimal}
use volatility_services.TimePeriod.{
  milliseconds_per_hour, milliseconds_per_day, time_period_to_integer, to_number,
}
use volatility_services.Expiries.{MfivExpiry, friday_t08, get_utc_day, get_utc_hours, mfiv_dates}
use volatility_services.WeeklyRollover.{
  Utc, rollover_of, rollover_weekly, rollover_semi_weekly, rollover_weekly-mfiv_dates,
}

abbrev utc : Utc
utc = record {
  day = get_utc_day;
  hour = get_utc_hours;
  at_hour = λ t h. t / milliseconds_per_day * milliseconds_per_day + h * milliseconds_per_hour;
  add_days = λ t n. t + n * milliseconds_per_day;
  subtract_days = λ t n. t - n * milliseconds_per_day;
  day_is = λ t. refl;
  hour_is = λ t. refl;
  at_hour_is = λ t h. refl;
  adds = λ t n. refl;
  subtracts = λ t n. refl;
}

rollover_weekly-mfiv_dates_example :
    (e : MfivExpiry) × (mfiv_dates (100 * milliseconds_per_day) (codes "14D") friday_t08 none
      ≡ ok e)
    × (rollover_weekly utc (100 * milliseconds_per_day) ≡ rollover_of e)
unfolding time_period_to_integer to_number index_of decimal
rollover_weekly-mfiv_dates_example =
    rollover_weekly-mfiv_dates utc (100 * milliseconds_per_day) 14 (codes "14D") none refl refl

-- 1970-01-04 was a Sunday: at 02:00 its rollover is the next Sunday's, and an hour later Thursday's.
semi_weekly_runs :
    ((rollover_semi_weekly utc (3 * milliseconds_per_day + 2 * milliseconds_per_hour)).rollover_at
      ≡ 10 * milliseconds_per_day + 2 * milliseconds_per_hour)
    × ((rollover_semi_weekly utc (3 * milliseconds_per_day + 3 * milliseconds_per_hour)).rollover_at
        ≡ 7 * milliseconds_per_day + 14 * milliseconds_per_hour)
unfolding rollover_semi_weekly
semi_weekly_runs = (refl, refl)
