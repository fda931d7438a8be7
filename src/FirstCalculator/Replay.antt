-- ===== src/FirstCalculator/Replay.antt =====
-- The replay of src/lib/vix_calculator.ts: `calculateIndex`, the stream and its rollovers. The callbacks are
-- recorded: `computed` is what onCompute was called with, latest first, and `completed` counts the calls
-- of onComplete. The field `summary` is only cleared, and `log` never written; both are left out.
pub mod Stops
use volatility_services.Prelude.{
  ℕ, zero, suc, ◌+◌, ◌-◌, ◌%◌, ◌≡◌, String, Bool, true, false, ◌&&◌, Option, none, some, List, [],
  ◌∷◌, ◌++◌, keep, leb, if◌then◌else◌,
}
use volatility_services.Prelude.Int.{ℤ, pos, sub_ℕ, leb_ℤ}
use volatility_services.Prelude.Text.{Text, text_beq, to_upper}
use volatility_services.Expiries.{Asset}
use volatility_services.WeeklyRollover.{Utc, Rollover, rollover_weekly}
use volatility_services.FirstCalculator.Numbers.{Double, part, truthy, or_else}
use volatility_services.FirstCalculator.MidBook.{
  OptionSummary, MidBook, mid_book_change, filter_book,
}
use volatility_services.FirstCalculator.FinalBook.{final_book_get}
use volatility_services.FirstCalculator.Strikes.{adjacent_strike_get, forward_price_get}
use volatility_services.FirstCalculator.Contribution.{contribution_get}

pub record VixConfig : Type 0 where
  pub replay_from : ℕ
  pub replay_to : ℕ
  pub report_frequency : Option ℕ
  pub asset : Asset

-- What onCompute is called with, beside the constants of the interest rate.
pub record Index (N : Type 0) : Type 0 where
  pub value : N
  pub d_vol : N
  pub invd_vol : N
  pub methodology : String
  pub asset : Asset
  pub timestamp : ℕ
  pub underlying_price : N

pub data Request : Type 0 where
  replay_normalized : List Text → ℕ → ℕ → Request
  stream_normalized : List Text → Request

-- dayjs in UTC and tardis-dev.
pub record Platform (N : Type 0) : Type 0 where
  pub numbers : Double N
  pub utc : Utc
  -- dayjs.utc()
  pub clock : ℕ
  pub start_of_minute : ℕ → ℕ
  pub start_of_second : ℕ → ℕ
  pub second : ℕ → ℕ
  pub add_seconds : ℕ → ℕ → ℕ
  pub add_ms : ℕ → ℤ → ℕ
  -- `t.subtract(1, "minute")`
  pub minute_before : ℕ → ℕ
  pub diff : ℕ → ℕ → ℤ
  pub is_before : ℕ → ℕ → Bool
  pub is_after : ℕ → ℕ → Bool
  pub is_same_or_after : ℕ → ℕ → Bool
  pub diffs : (a b : ℕ) → diff a b ≡ sub_ℕ a b
  pub same_or_after : (a b : ℕ) → is_same_or_after a b ≡ leb b a
  -- `t.format("DMMMYY")` and `dayjs.utc(text, "DMMMYY")`, which is `none` for no date
  pub format : ℕ → Text
  pub parse : Option Text → Option ℕ
  -- `dayjs.duration(…).asMilliseconds()` for two weeks, a year and five seconds
  pub two_weeks : ℕ
  pub year : ℕ
  pub five_seconds : ℕ
  -- The ids that getInstrumentInfo answers when it is asked at a reference date.
  pub instruments : ℕ → List Text
  -- The messages that a stream yields before it ends.
  pub stream : Request → List (OptionSummary N)

pub record VixCalculator (N : Type 0) : Type 0 where
  pub ref_date : ℕ
  pub start_date : ℕ
  pub rollover : Rollover
  pub riskless_rate : N
  pub report_frequency : ℕ
  pub max_duration : ℤ
  pub asset : Asset
  pub near_option_list : List Text
  pub next_option_list : List Text
  pub index : Option N
  pub invd_vol : Option N
  pub mid_book : MidBook N
  pub computed : List (Index N)
  pub completed : ℕ

-- What one pass over a stream ends with: by its last message or a `break`, or at a rollover.
pub data Pass (N : Type 0) : Type 0 where
  ended : VixCalculator N → Pass N
  rolls : VixCalculator N → Pass N

infixl 5 ◌>>=◌
abbrev ◌>>=◌ : {A B : Type 0} → Option A → (A → Option B) → Option B
none >>= f = none
some a >>= f = f a

module _ {N : Type 0} (p : Platform N) where
  open p use {
    utc, clock, start_of_minute, start_of_second, second, add_seconds, add_ms, minute_before, diff,
    is_before, is_after, is_same_or_after, format, parse, two_weeks, year, five_seconds,
    instruments, stream,
  }
  open p.numbers use {nan, of_ℕ, of_ℤ, add, sub, mul, div, pow, sqrt, e}

  unfoldable pub new : VixConfig → VixCalculator N
  new config =
      let ref_date = start_of_minute config.replay_from in
      record {
        ref_date = ref_date;
        start_date = start_of_minute config.replay_from;
        rollover = rollover_weekly utc ref_date;
        riskless_rate = div (of_ℕ 56) (of_ℕ 10000);
        report_frequency = or_else config.report_frequency five_seconds;
        max_duration = diff config.replay_to ref_date;
        asset = config.asset;
        near_option_list = [];
        next_option_list = [];
        index = none;
        invd_vol = none;
        mid_book = [];
        computed = [];
        completed = 0;
      }

  -- `expirationDateToString`
  abbrev pub expiration_date_to_string : ℕ → Text
  expiration_date_to_string t = to_upper (format t)

  -- `instrument.id.split("-")[1] === expirationDateToString(expiry)`
  abbrev pub expires_at : ℕ → Text → Bool
  expires_at expiry id = elim (part id 1) [
    | none ↦ false
    | some w ↦ text_beq w (expiration_date_to_string expiry)
  ]

  unfoldable pub build_option_lists : VixCalculator N → VixCalculator N
  build_option_lists c =
      let ids = instruments c.ref_date in
      record c {
        near_option_list = keep (expires_at c.rollover.near_expiry) ids;
        next_option_list = keep (expires_at c.rollover.next_expiry) ids;
      }

  unfoldable pub create_stream : VixCalculator N → Request
  create_stream c =
      let symbols = c.near_option_list ++ c.next_option_list in
      let max_ref = add_ms c.ref_date c.max_duration in
      if is_before c.ref_date (start_of_minute clock)
      then replay_normalized symbols c.ref_date
          (if is_after max_ref c.rollover.rollover_at then c.rollover.rollover_at else max_ref)
      else stream_normalized symbols

  -- `msToExpiration(expiration) / year`, NaN without a date.
  abbrev pub year_fraction : ℕ → Option Text → N
  year_fraction ref_date text = elim (parse text) [
    | none ↦ nan
    | some expiration ↦ div (of_ℤ (diff expiration ref_date)) (of_ℕ year)
  ]

  -- `modSigmaSquared` of one expiry: `left` is its time to expiration over a year.
  abbrev pub mod_sigma_squared : N → N → N → N → N → N
  mod_sigma_squared rate left contribution forward strike =
      sub (mul (mul (pow e (mul rate left)) (of_ℕ 2)) contribution)
        (pow (sub (div forward strike) (of_ℕ 1)) (of_ℕ 2))

  -- `dVol` from the two expiries.
  abbrev pub d_vol_of : N → N → N → N → N
  d_vol_of sigma_1 sigma_2 nt_1 nt_2 =
      let n14 = of_ℕ two_weeks in
      sqrt (
        mul
          (add (mul sigma_1 (div (sub nt_2 n14) (sub nt_2 nt_1)))
            (mul sigma_2 (div (sub n14 nt_1) (sub nt_2 nt_1))))
          (div (of_ℕ year) n14))

  -- `calculateIndex`, with the two fields that it sets; `none` where it throws.
  unfoldable pub calculate_index : VixCalculator N → Option (N × N)
  calculate_index c =
      let n = p.numbers in
      let nt_1 = of_ℤ (sub_ℕ c.rollover.near_expiry c.ref_date) in
      let nt_2 = of_ℤ (sub_ℕ c.rollover.next_expiry c.ref_date) in
      let forward = forward_price_get n c.riskless_rate (year_fraction c.ref_date) c.mid_book in
      let f_1 = forward c.near_option_list in
      let f_2 = forward c.next_option_list in
      let strike_1 = adjacent_strike_get n c.near_option_list f_1 in
      let strike_2 = adjacent_strike_get n c.next_option_list f_2 in
      let entries = λ (t : ℕ). filter_book n (expiration_date_to_string t) c.mid_book in
      do
        near_book ← final_book_get n (entries c.rollover.near_expiry) strike_1
        next_book ← final_book_get n (entries c.rollover.next_expiry) strike_2
        near ← contribution_get n near_book
        next ← contribution_get n next_book
        let sigma_1 = mod_sigma_squared c.riskless_rate (div nt_1 (of_ℕ year)) near f_1 strike_1
        let sigma_2 = mod_sigma_squared c.riskless_rate (div nt_2 (of_ℕ year)) next f_2 strike_2
        let d_vol = d_vol_of sigma_1 sigma_2 nt_1 nt_2
        some (mul (of_ℕ 100) d_vol, mul (of_ℕ 100) (div (of_ℕ 1) d_vol))

  -- The call of `calculateIndex` and what it sets, an error ignored.
  unfoldable pub set_index : VixCalculator N → VixCalculator N
  unfolding calculate_index
  set_index c = elim (calculate_index c) [
    | none ↦ c
    | some (index, invd_vol) ↦ record c { index = some index; invd_vol = some invd_vol }
  ]

  unfoldable pub report_time : OptionSummary N → ℕ
  report_time m = let ts = start_of_second m.timestamp in add_seconds ts (5 - second ts % 5)

  unfoldable pub report : OptionSummary N → VixCalculator N → VixCalculator N
  unfolding report_time
  report m c = record c {
    computed =
        record {
          value = or_else c.index (of_ℕ 0);
          d_vol = or_else c.index (of_ℕ 0);
          invd_vol = or_else c.invd_vol (of_ℕ 0);
          methodology = "MFIV";
          asset = c.asset;
          timestamp = report_time m;
          underlying_price = or_else m.underlying_price (of_ℕ 0);
        }
        ∷ c.computed;
  }

  abbrev pub is_due : ℕ → OptionSummary N → VixCalculator N → Bool
  is_due last_report m c = leb_ℤ (pos c.report_frequency) (diff (report_time m) last_report)

  -- A message enters the book, the index is computed anew and may be due for a report.
  unfoldable pub take_in : ℕ → OptionSummary N → VixCalculator N → VixCalculator N
  unfolding set_index report report_time
  take_in last_report m c =
      let c' = set_index (record c { mid_book = mid_book_change p.numbers m c.mid_book }) in
      if is_due last_report m c then report m c' else c'

  -- `this.index` as a condition
  abbrev pub has_index : VixCalculator N → Bool
  has_index c = elim c.index [ none ↦ false | some i ↦ truthy p.numbers i ]

  -- The `for await` loop over one stream.
  unfoldable pub pass : Bool → ℕ → List (OptionSummary N) → VixCalculator N → Pass N
  unfolding take_in
  pass break_on_first_success last_report [] c = ended c
  pass break_on_first_success last_report (m ∷ ms) c =
      let c' = take_in last_report m c in
      let rest =
        pass break_on_first_success (if is_due last_report m c then report_time m else last_report)
          ms c' in
      if break_on_first_success && has_index c'
      then ended c'
      else if leb_ℤ c'.max_duration (diff (report_time m) c'.start_date)
      then ended c'
      else if is_same_or_after (report_time m) c'.rollover.rollover_at
      then rolls c'
      else rest

  -- A rollover: the book stays.
  unfoldable pub roll_over : VixCalculator N → VixCalculator N
  unfolding build_option_lists
  roll_over c = build_option_lists (record c {
    ref_date = c.rollover.rollover_at;
    rollover = rollover_weekly utc c.rollover.rollover_at;
  })

  -- `fuel` bounds the rollovers; `none` means that it ran out.
  unfoldable pub summary_stream : ℕ → Bool → VixCalculator N → Option (VixCalculator N)
  unfolding create_stream pass roll_over
  summary_stream zero break_on_first_success c = none
  summary_stream (suc fuel) break_on_first_success c =
      elim (pass break_on_first_success (minute_before c.ref_date) (stream (create_stream c)) c) [
        | ended c' ↦ some (record c' { completed = c'.completed + 1 })
        | rolls c' ↦ summary_stream fuel false (roll_over c')
      ]

  -- `fetchIndex`, up to the average of the empty log.
  unfoldable pub fetch_index : ℕ → VixConfig → Option (VixCalculator N)
  unfolding new build_option_lists summary_stream
  fetch_index fuel config = summary_stream fuel false (build_option_lists (new config))
