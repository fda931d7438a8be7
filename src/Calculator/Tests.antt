-- ===== src/Calculator/Tests.antt =====
-- A replay of two days with a rollover, on concrete libraries.
use volatility_services.Prelude.{
  ℕ, ◌+◌, ◌≡◌, ◌≢◌, refl, inl, inr, String, false, Option, none, some, List, [], ◌∷◌, arith,
}
use volatility_services.Prelude.Int.{pos}
use volatility_services.Prelude.Text.{codes}
use volatility_services.Expiries.{eth}
use volatility_services.BuildExpiries.{
  Expiries, build_expiries, with_near, select, select_step, sort, delete_all, future_options,
}
use volatility_services.BuildExpiries.Grouping.{day}
use volatility_services.Calculator.{
  completed, Calculator, Outcome, finished, out_of_fuel, expiries_at, new, pass, roll_to,
  summary_stream, fetch_index, delete_entries, copy_entries, sort_symbols, set_option, take_in,
  next_report, report, calculate_index, report_time, create_stream,
}
use volatility_services.Calculator.Platform.{OptionSummary}
use volatility_services.Calculator.Passes.{state_of}
use volatility_services.Calculator.Book.{IsBook, pass-IsBook, roll_to-IsBook}
use volatility_services.Calculator.Replays.{Completes, fetch_index-Completes}
use volatility_services.Calculator.Rollovers.{Replays, fetch_index-stops}
use volatility_services.Calculator.Example.{summary, platform, config, windowed, windowed-IsSteady}

abbrev completed_of : Outcome ℕ ℕ → Option (ℕ × List ℕ)
completed_of (finished c) = some (completed c, c.ref_date ∷ c.expiries.near_expiry ∷ [])
completed_of _ = none

-- The replay rolls over once and completes once.
fetch_index-runs :
    completed_of (fetch_index platform 3 config 14) ≡ some (1, day 107 ∷ day 121 ∷ [])
unfolding fetch_index new summary_stream create_stream sort_symbols pass set_option take_in
    next_report report calculate_index report_time roll_to delete_entries copy_entries expiries_at
    build_expiries with_near select select_step sort delete_all future_options
fetch_index-runs = refl

fetch_index-stops_example :
    (fetch_index platform (day 2 + 1) config 14 ≢ out_of_fuel)
    × Replays platform config 14 (fetch_index platform (day 2 + 1) config 14)
fetch_index-stops_example = fetch_index-stops platform (day 2 + 1) 14 config (omega arith)

abbrev expiries_of : ℕ → ℕ → ℕ → Expiries
expiries_of near next rollover = record {
  expiry_list = [];
  expiry_map = [];
  near_expiry = near;
  next_expiry = next;
  near_symbols = [];
  next_symbols = [];
  rollover_at = some rollover;
}

-- A book of the expiries at day 114 and day 121, with an option of day 128 waiting.
abbrev replay : Calculator ℕ ℕ
replay = record {
  ref_date = day 106;
  start_date = day 106;
  time_period = 14;
  time_period_option = codes "14D";
  report_frequency = 60000;
  max_duration = pos (day 2);
  asset = eth;
  expiries = expiries_of (day 114) (day 121) (day 107);
  index = none;
  mid_book = ("B", summary "B" (day 106) (day 114)) ∷ ("C", summary "C" (day 106) (day 121)) ∷ [];
  options = ("D", summary "D" (day 106) (day 128)) ∷ [];
  calls = [];
}

replay-IsBook : IsBook replay
replay-IsBook = record {
  current = ((refl, inl refl), ((refl, inr refl), tt));
  waiting = ((λ h. absurd (omega arith), λ h. absurd (omega arith)), tt);
}

pass-IsBook_example : IsBook (
    state_of (
      pass platform false
        (day 105)
        (summary "B" (day 106) (day 114) ∷ summary "E" (day 106) (day 135) ∷ [])
        replay))
pass-IsBook_example =
    pass-IsBook platform false (day 105)
      (summary "B" (day 106) (day 114) ∷ summary "E" (day 106) (day 135) ∷ []) replay replay-IsBook

roll_to-IsBook_example :
    IsBook (roll_to platform (expiries_of (day 121) (day 128) (day 114)) replay)
    × ((roll_to platform (expiries_of (day 121) (day 128) (day 114)) replay).options ≡ [])
roll_to-IsBook_example =
    roll_to-IsBook platform (expiries_of (day 121) (day 128) (day 114)) replay replay-IsBook refl
      (λ h. absurd (omega arith))

abbrev symbols : List (String × OptionSummary ℕ ℕ) → List String
symbols [] = []
symbols (e ∷ es) = e.0 ∷ symbols es

-- The old near option leaves the book and the waiting one enters it.
roll_to-runs :
    symbols (roll_to platform (expiries_of (day 121) (day 128) (day 114)) replay).mid_book
    ≡ "C" ∷ "D" ∷ []
unfolding roll_to delete_entries copy_entries
roll_to-runs = refl

fetch_index-Completes_example : Completes (fetch_index windowed (day 2 + 1) config 14)
fetch_index-Completes_example =
    fetch_index-Completes windowed 14 (day 2 + 1) config windowed-IsSteady (omega arith)
