-- ===== src/Expiries/Fridays.antt =====
-- The weekly schedule that `mfiv_dates` follows.
use volatility_services.Prelude.{
  ℕ, ◌+◌, ◌-◌, ◌*◌, ◌/◌, ◌%◌, ◌≤◌, ◌<◌, ◌≡◌, ◌≢◌, refl, Option, some, ok, ◌&&◌, nat_beq, leb,
  if◌then◌else◌, sym, ap, ◌∙◌, arith,
}
use volatility_services.Prelude.Text.{Text}
use volatility_services.TimePeriod.{milliseconds_per_day, time_period_to_integer}
use volatility_services.Expiries.{
  Asset, MfivExpiry, Ordinals, friday_t08, get_utc_day, get_utc_hours, expiry_type_to_ordinals,
  next_date, next_expiration, mfiv_dates,
}

-- A Friday at 08:00:00.000 UTC.
abbrev pub IsFridayT08 : ℕ → Type 0
IsFridayT08 t = (get_utc_day t ≡ 5) × (t % milliseconds_per_day ≡ 28800000)

friday_ordinals :
    expiry_type_to_ordinals friday_t08
    ≡ ok (record { expiry_day = 5; expiry_hour = some 8; expiry_min = some 0; expiry_sec = some 0 })
unfolding expiry_type_to_ordinals
friday_ordinals = refl

abbrev pub friday_at : ℕ → ℕ
friday_at t = t / milliseconds_per_day * milliseconds_per_day + 28800000

abbrev friday : Ordinals
friday = record { expiry_day = 5; expiry_hour = some 8; expiry_min = some 0; expiry_sec = some 0 }

get_utc_day-weeks :
    (now tp : ℕ) → tp % 7 ≡ 0 → get_utc_day (now + milliseconds_per_day * tp) ≡ get_utc_day now
get_utc_day-weeks now tp h = omega arith

get_utc_hours-days :
    (now tp : ℕ) → get_utc_hours (now + milliseconds_per_day * tp) ≡ get_utc_hours now
get_utc_hours-days now tp = omega arith

abbrev pub chosen : ℕ → ℕ
chosen now =
    if nat_beq (get_utc_day now) 5 && leb 8 (get_utc_hours now)
    then now + 21 * milliseconds_per_day
    else if nat_beq (get_utc_day now) 6
    then now + 20 * milliseconds_per_day
    else now + (19 - get_utc_day now) * milliseconds_per_day

next_date-weeks : (now tp : ℕ) → tp % 7 ≡ 0 → next_date now (some tp) friday ≡ chosen now
unfolding next_date
next_date-weeks now tp h = rw (get_utc_day-weeks now tp h, get_utc_hours-days now tp)

friday_at-utc_day : (t : ℕ) → get_utc_day (friday_at t) ≡ get_utc_day t
friday_at-utc_day t = omega arith

IsFridayT08-chosen : (now : ℕ) → IsFridayT08 (friday_at (chosen now))
IsFridayT08-chosen now = ground arith

chosen_bounds :
    (now : ℕ)
    → (now + 14 * milliseconds_per_day < friday_at (chosen now))
      × (friday_at (chosen now) ≤ now + 21 * milliseconds_per_day)
chosen_bounds now = ground arith

-- No Friday T08 lies between now + 14 days and the one chosen.
chosen_first :
    (now t : ℕ) → IsFridayT08 t → now + 14 * milliseconds_per_day < t → friday_at (chosen now) ≤ t
chosen_first now t f h = ground arith

abbrev pub dates_from : ℕ → Option Asset → MfivExpiry
dates_from next asset = record {
  near_expiration = next - 7 * milliseconds_per_day;
  next_expiration = next;
  rollover = next - 14 * milliseconds_per_day;
  asset = asset;
}

pub mfiv_dates-weeks :
    (now n : ℕ) (tp : Text) (asset : Option Asset)
    → time_period_to_integer tp ≡ ok (some n)
    → n % 7 ≡ 0
    → mfiv_dates now tp friday_t08 asset ≡ ok (dates_from (friday_at (chosen now)) asset)
unfolding mfiv_dates next_expiration
mfiv_dates-weeks now n tp asset e h =
    rw (e, friday_ordinals, next_date-weeks now n h) (ground arith)

-- The dates of an index at an instant: consecutive Fridays T08 around 14 days ahead, and the
-- rollover two weeks before the later one.
pub record IsSchedule (now : ℕ) (e : MfivExpiry) : Type 0 where
  pub next_friday : IsFridayT08 e.next_expiration
  pub near_friday : IsFridayT08 e.near_expiration
  pub next_after : now + 14 * milliseconds_per_day < e.next_expiration
  pub near_before : e.near_expiration ≤ now + 14 * milliseconds_per_day
  pub week : e.near_expiration + 7 * milliseconds_per_day ≡ e.next_expiration
  pub rollover_after : now < e.rollover
  pub rollover : e.rollover + 14 * milliseconds_per_day ≡ e.next_expiration

pub dates_from-IsSchedule :
    (now : ℕ) (asset : Option Asset) → IsSchedule now (dates_from (friday_at (chosen now)) asset)
dates_from-IsSchedule now asset = ground (arith, IsFridayT08-chosen now, chosen_bounds now)

-- With a time period of whole weeks, at any instant, `mfiv_dates` returns: two Fridays T08 a week
-- apart, of which the near one is at most, and the next one more than, 14 days ahead; and a rollover
-- that is still to come, 14 days before the next one. No other Friday T08 more than 14 days ahead
-- comes before the next one.
pub mfiv_dates-IsSchedule :
    (now n : ℕ) (tp : Text) (asset : Option Asset)
    → time_period_to_integer tp ≡ ok (some n)
    → n % 7 ≡ 0
    → (e : MfivExpiry) × (mfiv_dates now tp friday_t08 asset ≡ ok e)
      × IsSchedule now e
      × ((t : ℕ) → IsFridayT08 t → now + 14 * milliseconds_per_day < t → e.next_expiration ≤ t)
mfiv_dates-IsSchedule now n tp asset e h = (
  dates_from (friday_at (chosen now)) asset,
  mfiv_dates-weeks now n tp asset e h,
  dates_from-IsSchedule now asset,
  chosen_first now,
)

chosen-stable :
    (now t : ℕ)
    → now ≤ t
    → t + 14 * milliseconds_per_day < friday_at (chosen now)
    → friday_at (chosen t) ≡ friday_at (chosen now)
chosen-stable now t h k = ground arith

chosen-next : (r : ℕ) → IsFridayT08 r → friday_at (chosen r) ≡ r + 21 * milliseconds_per_day
chosen-next r f = ground arith

dates-eq :
    (now n : ℕ) (tp : Text) (asset : Option Asset) (e : MfivExpiry)
    → time_period_to_integer tp ≡ ok (some n)
    → n % 7 ≡ 0
    → mfiv_dates now tp friday_t08 asset ≡ ok e
    → e ≡ dates_from (friday_at (chosen now)) asset
dates-eq now n tp asset e p h q = cc (q, mfiv_dates-weeks now n tp asset p h)

two_weeks_before :
    (r next : ℕ)
    → r + 14 * milliseconds_per_day ≡ next
    → IsFridayT08 next
    → friday_at (chosen r) - 7 * milliseconds_per_day ≡ next
two_weeks_before r next e f = rw (chosen-next r (omega arith)) (omega arith)

near-eq-next :
    (now : ℕ) (e : MfivExpiry) (asset : Option Asset)
    → e ≡ dates_from (friday_at (chosen now)) asset
    → friday_at (chosen e.rollover) - 7 * milliseconds_per_day ≡ e.next_expiration
near-eq-next now e asset q =
    let s : IsSchedule now e = rw q (dates_from-IsSchedule now asset) in
    two_weeks_before e.rollover e.next_expiration s.rollover s.next_friday

-- The dates stay the same until the rollover, and at the rollover the next expiration becomes the
-- near one.
pub mfiv_dates-rollover :
    (now t n : ℕ) (tp : Text) (asset : Option Asset) (e : MfivExpiry)
    → time_period_to_integer tp ≡ ok (some n)
    → n % 7 ≡ 0
    → mfiv_dates now tp friday_t08 asset ≡ ok e
    → now ≤ t
    → (t < e.rollover → mfiv_dates t tp friday_t08 asset ≡ ok e)
      × ((e' : MfivExpiry) × (mfiv_dates e.rollover tp friday_t08 asset ≡ ok e')
          × (e'.near_expiration ≡ e.next_expiration))
mfiv_dates-rollover now t n tp asset e p h q l =
    let same = dates-eq now n tp asset e p h q in
    (
      λ before.
          mfiv_dates-weeks t n tp asset p h
          ∙ ap (λ (x : ℕ). ok (dates_from x asset))
              (chosen-stable now t l (omega (arith, ap (λ (x : MfivExpiry). x.rollover) same)))
          ∙ sym (mfiv_dates-weeks now n tp asset p h)
          ∙ q,
      (
        dates_from (friday_at (chosen e.rollover)) asset,
        mfiv_dates-weeks e.rollover n tp asset p h,
        near-eq-next now e asset same,
      ),
    )

-- Every time period of whole weeks has the dates of every other: the number of weeks is not used.
pub mfiv_dates-ignores_weeks :
    (now n k : ℕ) (tp tp' : Text) (asset : Option Asset)
    → time_period_to_integer tp ≡ ok (some n)
    → time_period_to_integer tp' ≡ ok (some k)
    → n % 7 ≡ 0
    → k % 7 ≡ 0
    → mfiv_dates now tp friday_t08 asset ≡ mfiv_dates now tp' friday_t08 asset
mfiv_dates-ignores_weeks now n k tp tp' asset e e' h h' =
    mfiv_dates-weeks now n tp asset e h ∙ sym (mfiv_dates-weeks now k tp' asset e' h')

-- With another time period, whenever now + time period is a Friday at 08:00 or later that day, the
-- next expiration is no Friday.
pub mfiv_dates-misses_friday :
    (now n : ℕ) (tp : Text) (asset : Option Asset)
    → time_period_to_integer tp ≡ ok (some n)
    → n % 7 ≢ 0
    → get_utc_day (now + milliseconds_per_day * n) ≡ 5
    → 8 ≤ get_utc_hours (now + milliseconds_per_day * n)
    → (e : MfivExpiry) × (mfiv_dates now tp friday_t08 asset ≡ ok e)
      × (get_utc_day e.next_expiration ≢ 5)
unfolding mfiv_dates next_expiration next_date
mfiv_dates-misses_friday now n tp asset e h day hour = (
  dates_from (friday_at (now + 21 * milliseconds_per_day)) asset,
  rw (e, friday_ordinals) (ground arith),
  omega arith,
)
