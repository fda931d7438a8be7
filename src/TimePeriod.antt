-- ===== src/TimePeriod.antt =====
-- src/lib/constants.ts (the lengths of time) and src/lib/utils/time_period.ts.
-- A time period such as "14D" is text; of the numbers that `Number` can read only the whole decimal
-- ones are modelled, and every other text stands for NaN.
use volatility_services.Prelude.{ℕ, zero, suc, ◌*◌, Option, none, some, Result, ok, err, take}
use volatility_services.Prelude.Text.{Text, index_of, decimal}

abbrev pub milliseconds_per_second : ℕ
milliseconds_per_second = 1000

abbrev pub milliseconds_per_minute : ℕ
milliseconds_per_minute = milliseconds_per_second * 60

abbrev pub milliseconds_per_hour : ℕ
milliseconds_per_hour = milliseconds_per_minute * 60

abbrev pub milliseconds_per_day : ℕ
milliseconds_per_day = milliseconds_per_hour * 24

-- What the date code throws: a time period without a number before its "D", the period 0, an expiry
-- type without a time, and `toISOString` of an invalid date.
pub data DateError : Type 0 where
  bad_format zero_period type_error range_error : DateError

-- `+text`: `none` is NaN, and the empty text is 0.
unfoldable pub to_number : Text → Option ℕ
unfolding decimal
to_number text = decimal 0 text

abbrev check_period : Option ℕ → Result DateError (Option ℕ)
check_period none = ok none
check_period (some zero) = err zero_period
check_period (some (suc n)) = ok (some (suc n))

abbrev period_before : Text → Option ℕ → Result DateError (Option ℕ)
period_before text none = err bad_format
period_before text (some zero) = err bad_format
period_before text (some (suc end)) = check_period (to_number (take (suc end) text))

-- The number of days, or `none` for NaN.
unfoldable pub time_period_to_integer : Text → Result DateError (Option ℕ)
unfolding to_number index_of
time_period_to_integer text = period_before text (index_of b'D' text)
