-- ===== src/Expiries.antt =====
-- src/lib/expiries.ts: the near and next expiration and the rollover of an index.
-- An instant is its milliseconds since 1970, a natural number; `toISOString` and `new Date` of what
-- it prints are inverse to one another, so an ISO string is the instant that it names.
pub mod Fridays
mod Tests
use volatility_services.Prelude.{
  ℕ, ◌+◌, ◌-◌, ◌*◌, ◌/◌, ◌%◌, Bool, true, false, ◌&&◌, Option, none, some, List, [], ◌∷◌, map,
  Result, ok, err, ◌>>=◌, leb, nat_beq, if◌then◌else◌,
}
use volatility_services.Prelude.Text.{Text, codes, text_beq, split, parse_int}
use volatility_services.TimePeriod.{
  DateError, type_error, range_error, milliseconds_per_second, milliseconds_per_minute,
  milliseconds_per_hour, milliseconds_per_day, time_period_to_integer,
}

-- The `Asset` of node-volatility-mfiv and BaseCurrencyEnum.
pub data Asset : Type 0 where
  eth btc sol : Asset

pub record MfivExpiry : Type 0 where
  pub near_expiration : ℕ
  pub next_expiration : ℕ
  pub rollover : ℕ
  pub asset : Option Asset

-- `none` is NaN or undefined.
pub record Ordinals : Type 0 where
  pub expiry_day : ℕ
  pub expiry_hour : Option ℕ
  pub expiry_min : Option ℕ
  pub expiry_sec : Option ℕ

-- `getUTCDay`: 1970-01-01 was a Thursday, and Sunday is 0.
abbrev pub get_utc_day : ℕ → ℕ
get_utc_day t = (t / milliseconds_per_day + 4) % 7

-- `getUTCHours`
abbrev pub get_utc_hours : ℕ → ℕ
get_utc_hours t = t / milliseconds_per_hour % 24

-- `setUTCHours(hour, min, sec, 0)`; the date is invalid if one of them is NaN.
abbrev pub set_utc_hours : Option ℕ → Option ℕ → Option ℕ → ℕ → Option ℕ
set_utc_hours (some h) (some m) (some s) t = some (
    t / milliseconds_per_day * milliseconds_per_day
    + h * milliseconds_per_hour
    + m * milliseconds_per_minute
    + s * milliseconds_per_second)
set_utc_hours _ _ _ t = none

-- MethodologyExpiryEnum.FridayT08
abbrev pub friday_t08 : Text
friday_t08 = codes "FridayT08:00:00Z"

abbrev day_names : List Text
day_names =
    codes "Monday"
    ∷ codes "Tuesday"
    ∷ codes "Wednesday"
    ∷ codes "Thursday"
    ∷ codes "Friday"
    ∷ codes "Saturday"
    ∷ codes "Sunday"
    ∷ []

-- `names.indexOf(name) + 1`
index_in : Text → List Text → ℕ
index_in name [] = 0
index_in name (w ∷ ws) =
    if text_beq name w then 1 else elim (index_in name ws) [ ℕ.zero ↦ 0 | ℕ.suc i ↦ i + 2 ]

abbrev nth : ℕ → List (Option ℕ) → Option ℕ
nth n [] = none
nth ℕ.zero (x ∷ xs) = x
nth (ℕ.suc n) (x ∷ xs) = nth n xs

abbrev ordinals_of : List Text → Result DateError Ordinals
ordinals_of (day ∷ time ∷ _) =
    let parts = map (parse_int none) (split b':' time) in
    ok (record {
      expiry_day = index_in day day_names;
      expiry_hour = nth 0 parts;
      expiry_min = nth 1 parts;
      expiry_sec = nth 2 parts;
    })
ordinals_of _ = err type_error

unfoldable pub expiry_type_to_ordinals : Text → Result DateError Ordinals
unfolding index_in split parse_int
expiry_type_to_ordinals expiry_fmt = ordinals_of (split b'T' expiry_fmt)

-- `targetHour >= expiryHour`, false at NaN.
abbrev hour_reached : ℕ → Option ℕ → Bool
hour_reached hour none = false
hour_reached hour (some h) = leb h hour

-- The date whose hours are then set. With a time period of NaN the target has no day.
unfoldable pub next_date : ℕ → Option ℕ → Ordinals → ℕ
next_date date_ms none o = date_ms + (19 - get_utc_day date_ms) * milliseconds_per_day
next_date date_ms (some time_period) o =
    let target = date_ms + milliseconds_per_day * time_period in
    if nat_beq (get_utc_day target) o.expiry_day
      && hour_reached (get_utc_hours target) o.expiry_hour
    then date_ms + 21 * milliseconds_per_day
    else if nat_beq (get_utc_day target) (o.expiry_day + 1)
    then date_ms + 20 * milliseconds_per_day
    else date_ms + (19 - get_utc_day date_ms) * milliseconds_per_day

-- `none` is an invalid date.
unfoldable pub next_expiration : ℕ → Option ℕ → Text → Result DateError (Option ℕ)
next_expiration date_ms time_period expiry_type = do
  o ← expiry_type_to_ordinals expiry_type
  ok (set_utc_hours o.expiry_hour o.expiry_min o.expiry_sec (next_date date_ms time_period o))

-- `toISOString` throws at an invalid date.
abbrev to_iso_string : Option ℕ → Result DateError ℕ
to_iso_string none = err range_error
to_iso_string (some t) = ok t

unfoldable pub mfiv_dates : ℕ → Text → Text → Option Asset → Result DateError MfivExpiry
unfolding next_expiration
mfiv_dates now time_period expiry_type asset = do
  tp ← time_period_to_integer time_period
  date ← next_expiration now tp expiry_type
  next ← to_iso_string date
  ok (record {
    near_expiration = next - 7 * milliseconds_per_day;
    next_expiration = next;
    rollover = next - 14 * milliseconds_per_day;
    asset = asset;
  })
