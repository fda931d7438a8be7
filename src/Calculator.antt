-- ===== src/Calculator.antt =====
-- src/lib/vix_calculator_v2.ts: an index replayed over the option summaries of a period. The
-- callbacks are recorded: `calls` has the calls of onCompute and onComplete, the latest first; onError is
-- never called. A stream is the list of the messages that it yields.
pub mod Platform
pub mod Passes
pub mod Book
pub mod Rollovers
pub mod Replays
pub mod Example
mod Tests
use Prim.Native.String.{compare}
use text.Mathlib.Text.{is_le}
use volatility_services.Prelude.{
  ℕ, zero, suc, ◌+◌, ◌-◌, ◌*◌, ◌%◌, ◌≡◌, String, Bool, true, false, not, ◌&&◌, Option, none, some,
  List, [], ◌∷◌, ◌++◌, Result, ok, err, keep, if◌then◌else◌,
}
use volatility_services.Prelude.Int.{ℤ, pos, leb_ℤ}
use volatility_services.Prelude.Text.{Text}
use volatility_services.Prelude.Dict.{Dict, get, set, delete, values}
use volatility_services.Prelude.Keys.{instant_key, symbol_key}
use volatility_services.TimePeriod.{DateError, time_period_to_integer}
use volatility_services.Expiries.{Asset}
use volatility_services.BuildExpiries.{Expiries, ExpiryError, first, build_expiries}
use Platform.{
  OptionSummary, InterestRate, MfivContext, MfivParams, MfivResult, Index, Request,
  replay_normalized, stream_normalized,
}

pub record VixConfig : Type 0 where
  pub replay_from : ℕ
  pub replay_to : ℕ
  pub time_period : Text
  -- undefined, or a number of minutes
  pub report_frequency : Option ℕ
  pub asset : Asset

-- A call of a callback.
pub data Call (N : Type 0) : Type 0 where
  on_compute : Index N → Call N
  on_complete : Call N

pub record Calculator (N Q : Type 0) : Type 0 where
  pub ref_date : ℕ
  pub start_date : ℕ
  pub time_period : ℕ
  pub time_period_option : Text
  pub report_frequency : ℕ
  pub max_duration : ℤ
  pub asset : Asset
  pub expiries : Expiries
  pub index : Option (Index N)
  pub mid_book : Dict String (OptionSummary N Q)
  pub options : Dict String (OptionSummary N Q)
  pub calls : List (Call N)

abbrev pub interest_rate : InterestRate
interest_rate = record {
  riskless_rate = 56;
  riskless_rate_at = "2022-03-17T17:17:00.702Z";
  riskless_rate_source = "AAVE";
}

abbrev pub or_else {ℓ} : {A : Type ℓ} → Option A → A → A
or_else none d = d
or_else (some a) d = a

-- `config.reportFrequency || 15`
abbrev pub frequency_minutes : Option ℕ → ℕ
frequency_minutes none = 15
frequency_minutes (some zero) = 15
frequency_minutes (some (suc n)) = suc n

insert_symbol : String → List String → List String
insert_symbol x [] = x ∷ []
insert_symbol x (y ∷ ys) = if is_le (compare x y) then x ∷ y ∷ ys else y ∷ insert_symbol x ys

-- `symbols.sort(sortFn)`
unfoldable pub sort_symbols : List String → List String
unfolding insert_symbol
sort_symbols [] = []
sort_symbols (x ∷ xs) = insert_symbol x (sort_symbols xs)

-- How often onComplete is called.
abbrev pub completions : {N : Type 0} → List (Call N) → ℕ
completions [] = 0
completions (on_compute i ∷ calls) = completions calls
completions (on_complete ∷ calls) = suc (completions calls)

abbrev pub completed : {N Q : Type 0} → Calculator N Q → ℕ
completed c = completions c.calls

-- What one pass over a stream ends with: by its last message or a `break`, or at a rollover.
pub data Pass (N Q : Type 0) : Type 0 where
  ended : Calculator N Q → Pass N Q
  rolls : Calculator N Q → Pass N Q

-- A rejection, with the calls of callbacks before it.
pub data Outcome (N Q : Type 0) : Type 0 where
  finished : Calculator N Q → Outcome N Q
  rejected : ExpiryError → List (Call N) → Outcome N Q
  out_of_fuel : Outcome N Q

module _ {N Q : Type 0} (p : Platform.Platform N Q) where
  open p use {
    nought, vendor, clock, start_of_minute, start_of_second, second, add_seconds, add_ms,
    minute_before, minutes_ms, is_same, is_before, is_after, is_same_or_after, instruments, stream,
    compute,
  }

  -- The constructor, and the first part of fetchIndex, which builds the expiries. `days` is what
  -- `timePeriodToInteger` makes of the time period, for which the constructor does not throw.
  unfoldable pub new : VixConfig → ℕ → Expiries → Calculator N Q
  new config days expiries =
      let ref_date = start_of_minute config.replay_from in
      record {
        ref_date = ref_date;
        start_date = start_of_minute config.replay_from;
        time_period = days;
        time_period_option = config.time_period;
        report_frequency = minutes_ms (frequency_minutes config.report_frequency);
        max_duration = vendor.diff config.replay_to ref_date;
        asset = config.asset;
        expiries = expiries;
        index = none;
        mid_book = [];
        options = [];
        calls = [];
      }

  -- dayjs takes an undefined rollover for the present.
  abbrev pub rollover_of : Calculator N Q → ℕ
  rollover_of c = or_else c.expiries.rollover_at clock

  -- `sort` sorts the lists of the expiries in place, which nothing else reads.
  unfoldable pub create_stream : Calculator N Q → Request
  unfolding sort_symbols
  create_stream c =
      let max_ref = add_ms c.ref_date c.max_duration in
      let replay_to = if is_after max_ref (rollover_of c) then rollover_of c else max_ref in
      let future : List String = elim (first c.expiries.expiry_list) [
        | none ↦ []
        | some k ↦ or_else (get k c.expiries.expiry_map) []
      ] in
      let symbols =
        sort_symbols c.expiries.near_symbols ++ (sort_symbols c.expiries.next_symbols ++ future) in
      if is_before c.ref_date (start_of_minute clock)
      then replay_normalized symbols c.ref_date replay_to
      else stream_normalized symbols

  -- `none` where node-volatility-mfiv throws.
  unfoldable pub calculate_index : OptionSummary N Q → Calculator N Q → Option (Index N)
  calculate_index m c =
      let underlying_price = or_else m.underlying_price nought in
      let context : MfivContext = record {
        rate = interest_rate;
        time_period = c.time_period_option;
        exchange = "deribit";
        methodology = "MFIV";
        asset = c.asset;
      } in
      let params : MfivParams N Q = record {
        at = m.timestamp;
        near_date = c.expiries.near_expiry;
        next_date = c.expiries.next_expiry;
        options = values c.mid_book;
        underlying_price = underlying_price;
      } in
      elim (compute context params) [
        | none ↦ none
        | some r ↦ some (record {
          rate = interest_rate;
          asset = r.asset;
          time_period = c.time_period_option;
          d_vol = or_else r.d_vol nought;
          invd_vol = or_else r.invd_vol nought;
          value = or_else r.value nought;
          methodology = r.methodology;
          timestamp = r.estimated_for;
          underlying_price = underlying_price;
          near_expiry = c.expiries.near_expiry;
          next_expiry = c.expiries.next_expiry;
        })
      ]

  -- The end of the five seconds in which a message came.
  unfoldable pub report_time : OptionSummary N Q → ℕ
  report_time m = let ts = start_of_second m.timestamp in add_seconds ts (5 - second ts % 5)

  -- `this.index = calculateIndex(message)`, undefined if that throws, and onCompute.
  unfoldable pub report : OptionSummary N Q → Calculator N Q → Calculator N Q
  unfolding calculate_index
  report m c = elim (calculate_index m c) [
    | none ↦ record c { index = none }
    | some i ↦ record c { index = some i; calls = on_compute i ∷ c.calls }
  ]

  abbrev pub is_defined : Option (Index N) → Bool
  is_defined none = false
  is_defined (some i) = true

  -- The message belongs to the current near or next expiry.
  abbrev pub is_current : Expiries → OptionSummary N Q → Bool
  is_current e m = not (
      not (is_same e.near_expiry m.expiration_date)
      && not (is_same e.next_expiry m.expiration_date))

  -- A message of another expiry is kept for later.
  unfoldable pub set_option : OptionSummary N Q → Calculator N Q → Calculator N Q
  set_option m c = record c { options = set m.symbol m c.options }

  -- A message of a current expiry enters the book, and may be due for a report.
  unfoldable pub take_in : ℕ → OptionSummary N Q → Calculator N Q → Calculator N Q
  unfolding report report_time
  take_in last_report m c =
      let c' = record c { mid_book = set m.symbol m c.mid_book } in
      if leb_ℤ (pos c.report_frequency) (vendor.diff (report_time m) last_report)
      then report m c'
      else c'

  unfoldable pub next_report : ℕ → OptionSummary N Q → Calculator N Q → ℕ
  unfolding report_time
  next_report last_report m c =
      if leb_ℤ (pos c.report_frequency) (vendor.diff (report_time m) last_report)
      then report_time m
      else last_report

  -- The `for await` loop over one stream. A message has an expiration date.
  unfoldable pub pass : Bool → ℕ → List (OptionSummary N Q) → Calculator N Q → Pass N Q
  unfolding set_option take_in next_report
  pass break_on_first_success last_report [] c = ended c
  pass break_on_first_success last_report (m ∷ ms) c = elim (is_current c.expiries m) [
    | false ↦ pass break_on_first_success last_report ms (set_option m c)
    | true ↦
        let c' = take_in last_report m c in
        let rest = pass break_on_first_success (next_report last_report m c) ms c' in
        if break_on_first_success && is_defined c'.index
        then ended c'
        else if leb_ℤ c'.max_duration (vendor.diff (report_time m) c'.start_date)
        then ended c'
        else if is_same_or_after (report_time m) (rollover_of c')
        then rolls c'
        else rest
  ]

  -- `deleteEntries`: the options of an expiry leave the book.
  unfoldable pub delete_entries :
      ℕ
      → List (OptionSummary N Q)
      → Dict String (OptionSummary N Q)
      → Dict String (OptionSummary N Q)
  delete_entries target [] book = book
  delete_entries target (o ∷ os) book =
      delete_entries target os
        (if is_same target o.expiration_date then delete o.symbol book else book)

  -- The streamed options of the new next expiry enter the book.
  unfoldable pub copy_entries :
      ℕ
      → List (OptionSummary N Q)
      → Dict String (OptionSummary N Q)
      → Dict String (OptionSummary N Q)
  copy_entries target [] book = book
  copy_entries target (o ∷ os) book =
      copy_entries target os
        (if is_same target o.expiration_date then set o.symbol o book else book)

  -- A rollover with the expiries built at the rollover.
  unfoldable pub roll_to : Expiries → Calculator N Q → Calculator N Q
  unfolding delete_entries copy_entries
  roll_to expiries c =
      let c' = record c { ref_date = rollover_of c; expiries = expiries } in
      if is_same c.expiries.near_expiry expiries.near_expiry then c' else record c' {
        mid_book =
            copy_entries expiries.next_expiry (values c.options)
              (delete_entries c.expiries.near_expiry (values c.mid_book) c.mid_book);
        options = [];
      }

  unfoldable pub expiries_at : ℕ → ℕ → Result ExpiryError Expiries
  expiries_at ref_date days = build_expiries vendor ref_date days (instruments ref_date)

  -- One pass and, at a rollover, the next: `fuel` bounds the rollovers.
  unfoldable pub summary_stream : ℕ → Bool → Calculator N Q → Outcome N Q
  unfolding create_stream pass roll_to expiries_at
  summary_stream zero break_on_first_success c = out_of_fuel
  summary_stream (suc fuel) break_on_first_success c =
      elim (pass break_on_first_success (minute_before c.ref_date) (stream (create_stream c)) c) [
        | ended c' ↦ finished (record c' { calls = on_complete ∷ c'.calls })
        | rolls c' ↦ elim (expiries_at (rollover_of c') c'.time_period) [
          | err e ↦ rejected e c'.calls
          | ok expiries ↦ summary_stream fuel false (roll_to expiries c')
        ]
      ]

  -- `fetchIndex`, up to the average: the log that it averages is never written.
  unfoldable pub fetch_index : ℕ → VixConfig → ℕ → Outcome N Q
  unfolding new summary_stream
  fetch_index fuel config days = elim (expiries_at (start_of_minute config.replay_from) days) [
    | err e ↦ rejected e []
    | ok expiries ↦ summary_stream fuel false (new config days expiries)
  ]
