-- ===== src/WeeklyRollover.antt =====
-- src/lib/vix_calculator.ts: the expiries and the rollover of the first calculator
-- (`rolloverWeekly`, `rolloverSemiWeekly`). The UTC arithmetic of dayjs enters as a `Utc`.
mod Tests
use volatility_services.Prelude.{
  ℕ, ◌+◌, ◌-◌, ◌*◌, ◌/◌, ◌%◌, ◌≤◌, ◌<◌, ◌≡◌, refl, sym, ap, ◌∙◌, Bool, true, false, ◌&&◌, ◌||◌,
  Option, none, some, ok, leb, nat_beq, if◌then◌else◌, arith,
}
use volatility_services.Prelude.Text.{Text}
use volatility_services.TimePeriod.{
  milliseconds_per_hour, milliseconds_per_day, time_period_to_integer,
}
use volatility_services.Expiries.{
  Asset, MfivExpiry, friday_t08, get_utc_day, get_utc_hours, mfiv_dates,
}
use volatility_services.Expiries.Fridays.{
  IsFridayT08, friday_at, chosen, dates_from, dates_from-IsSchedule, mfiv_dates-weeks,
}

pub record Utc : Type 0 where
  -- `t.day()` and `t.hour()`
  pub day : ℕ → ℕ
  pub hour : ℕ → ℕ
  -- `t.hour(h).startOf("hour")`
  pub at_hour : ℕ → ℕ → ℕ
  pub add_days : ℕ → ℕ → ℕ
  pub subtract_days : ℕ → ℕ → ℕ
  pub day_is : (t : ℕ) → day t ≡ get_utc_day t
  pub hour_is : (t : ℕ) → hour t ≡ get_utc_hours t
  pub at_hour_is :
      (t h : ℕ)
      → at_hour t h ≡ t / milliseconds_per_day * milliseconds_per_day + h * milliseconds_per_hour
  pub adds : (t n : ℕ) → add_days t n ≡ t + n * milliseconds_per_day
  pub subtracts : (t n : ℕ) → subtract_days t n ≡ t - n * milliseconds_per_day

-- The fields that a rollover sets.
pub record Rollover : Type 0 where
  pub near_expiry : ℕ
  pub next_expiry : ℕ
  pub rollover_at : ℕ

module _ (u : Utc) where
  -- The first Friday after the target day.
  unfoldable pub weekly_next : ℕ → ℕ
  weekly_next ref_date =
      if nat_beq (u.day ref_date) 5 && leb 8 (u.hour ref_date)
      then u.add_days (u.at_hour ref_date 8) 21
      else if nat_beq (u.day ref_date) 6
      then u.add_days (u.at_hour ref_date 8) 20
      else u.add_days (u.at_hour ref_date 8) (19 - u.day ref_date)

  unfoldable pub rollover_weekly : ℕ → Rollover
  unfolding weekly_next
  rollover_weekly ref_date = record {
    near_expiry = u.subtract_days (weekly_next ref_date) 7;
    next_expiry = weekly_next ref_date;
    rollover_at = u.subtract_days (weekly_next ref_date) 14;
  }

  -- From Thursday 14:00 to Sunday 03:00
  abbrev pub is_weekend : ℕ → Bool
  is_weekend ref_date =
      (nat_beq (u.day ref_date) 4 && leb 14 (u.hour ref_date))
      || nat_beq (u.day ref_date) 5
      || nat_beq (u.day ref_date) 6
      || (nat_beq (u.day ref_date) 0 && leb (u.hour ref_date) 2)

  unfoldable pub rollover_semi_weekly : ℕ → Rollover
  rollover_semi_weekly ref_date =
      if is_weekend ref_date
      then record {
        near_expiry = u.add_days (u.at_hour ref_date 8) (12 - u.day ref_date);
        next_expiry = u.add_days (u.at_hour ref_date 8) (26 - u.day ref_date);
        rollover_at = u.at_hour (u.add_days ref_date (7 - u.day ref_date)) 2;
      }
      else record {
        near_expiry = u.add_days (u.at_hour ref_date 8) (12 - u.day ref_date);
        next_expiry = u.add_days (u.at_hour ref_date 8) (19 - u.day ref_date);
        rollover_at = u.at_hour (u.add_days ref_date (4 - u.day ref_date)) 14;
      }

abbrev pub rollover_of : MfivExpiry → Rollover
rollover_of e = record {
  near_expiry = e.near_expiration;
  next_expiry = e.next_expiration;
  rollover_at = e.rollover;
}

module _ (u : Utc) where
  weekly_next-chosen : (now : ℕ) → weekly_next u now ≡ friday_at (chosen now)
  unfolding weekly_next
  weekly_next-chosen now =
      let base : ℕ =
        now / milliseconds_per_day * milliseconds_per_day + 8 * milliseconds_per_hour in
      rw
        (
          u.day_is now,
          u.hour_is now,
          u.at_hour_is now 8,
          u.adds base 21,
          u.adds base 20,
          u.adds base (19 - get_utc_day now),
        )
        (ground arith)

  rollover_weekly-dates :
      (now : ℕ) (asset : Option Asset)
      → rollover_weekly u now ≡ rollover_of (dates_from (friday_at (chosen now)) asset)
  unfolding rollover_weekly
  rollover_weekly-dates now asset =
      rw
        (
          weekly_next-chosen now,
          u.subtracts (friday_at (chosen now)) 7,
          u.subtracts (friday_at (chosen now)) 14,
        )
        refl

  pub rollover_weekly-later : (now : ℕ) → now < (rollover_weekly u now).rollover_at
  rollover_weekly-later now =
      rw (rollover_weekly-dates now none) (dates_from-IsSchedule now none).rollover_after

  -- With whole weeks and Fridays T08, `mfiv_dates` and the weekly rollover of the first calculator
  -- choose the same near expiry, next expiry and rollover at every instant.
  pub rollover_weekly-mfiv_dates :
      (now n : ℕ) (tp : Text) (asset : Option Asset)
      → time_period_to_integer tp ≡ ok (some n)
      → n % 7 ≡ 0
      → (e : MfivExpiry) × (mfiv_dates now tp friday_t08 asset ≡ ok e)
        × (rollover_weekly u now ≡ rollover_of e)
  rollover_weekly-mfiv_dates now n tp asset days weeks = (
    dates_from (friday_at (chosen now)) asset,
    mfiv_dates-weeks now n tp asset days weeks,
    rollover_weekly-dates now asset,
  )

  -- At every instant the semi-weekly rollover is still to come, and its near and next expiries are
  -- Fridays T08 after it, one or two weeks apart.
  pub rollover_semi_weekly-IsFridayT08 :
      (now : ℕ)
      → (now < (rollover_semi_weekly u now).rollover_at)
        × ((rollover_semi_weekly u now).rollover_at < (rollover_semi_weekly u now).near_expiry)
        × IsFridayT08 (rollover_semi_weekly u now).near_expiry
        × IsFridayT08 (rollover_semi_weekly u now).next_expiry
        × ((rollover_semi_weekly u now).near_expiry < (rollover_semi_weekly u now).next_expiry)
        × ((rollover_semi_weekly u now).next_expiry
            ≤ (rollover_semi_weekly u now).near_expiry + 14 * milliseconds_per_day)
  unfolding rollover_semi_weekly
  rollover_semi_weekly-IsFridayT08 now =
      let base : ℕ =
        now / milliseconds_per_day * milliseconds_per_day + 8 * milliseconds_per_hour in
      rw
        (
          u.day_is now,
          u.hour_is now,
          u.at_hour_is now 8,
          u.adds base (12 - get_utc_day now),
          u.adds base (26 - get_utc_day now),
          u.adds base (19 - get_utc_day now),
          u.adds now (7 - get_utc_day now),
          u.adds now (4 - get_utc_day now),
          u.at_hour_is (now + (7 - get_utc_day now) * milliseconds_per_day) 2,
          u.at_hour_is (now + (4 - get_utc_day now) * milliseconds_per_day) 14,
        )
        (ground arith)
