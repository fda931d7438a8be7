-- ===== src/FirstCalculator/Tests.antt =====
-- Whole numbers with NaN, a small book, and a replay with one rollover.
use Prim.Native.Nat.{◌^◌}
use volatility_services.Prelude.{
  ℕ, ◌+◌, ◌-◌, ◌*◌, ◌/◌, ◌%◌, ◌≡◌, refl, String, Bool, true, false, Option, none, some, List, [],
  ◌∷◌, ltb, leb, if◌then◌else◌, keep, All, AnyOf, arith,
}
use volatility_services.Prelude.Int.{pos_part, neg_part, sub_ℕ}
use volatility_services.Prelude.Text.{Text, codes, split, decimal, text_includes, join}
use volatility_services.TimePeriod.{milliseconds_per_hour, milliseconds_per_day}
use volatility_services.Expiries.{eth, get_utc_day, get_utc_hours}
use volatility_services.WeeklyRollover.{rollover_weekly, weekly_next}
use volatility_services.FirstCalculator.Numbers.{Double, IsOrdered}
use volatility_services.FirstCalculator.MidBook.{
  OptionSummary, mid_of, mid_book, mid_book_change, filter_book, IsMid, mid_book-IsMid,
}
use volatility_services.FirstCalculator.FinalBook.{
  Entry, final_book_get, sort_entries, insert_entry,
}
use volatility_services.FirstCalculator.FinalBook.Outcome.{
  FinalBook, HasType, final_book_get-FinalBook,
}
use volatility_services.FirstCalculator.Strikes.{
  Nearest, adjacent_strike_get, adjacent_from, forward_price_get, nearest, nearest_from,
  nearest_step, reduced, distinct_from,
}
use volatility_services.FirstCalculator.Strikes.Adjacent.{
  IsAdjacent, adjacent_strike_get-IsAdjacent,
}
use volatility_services.FirstCalculator.Strikes.Forward.{IsNearest, forward_price_get-IsNearest}
use volatility_services.FirstCalculator.Contribution.{
  contribution_get, contribution_from, contribution_at, weighed_sum, contribution_get-weighed_sum,
}
use volatility_services.FirstCalculator.Replay.{
  VixConfig, Request, replay_normalized, stream_normalized, Platform, VixCalculator, new,
  build_option_lists, create_stream, calculate_index, set_index, report_time, report, take_in, pass,
  roll_over, summary_stream, fetch_index,
}
use volatility_services.FirstCalculator.Replay.Stops.{Completes, first_fetch_index-Completes}

abbrev lift : (ℕ → ℕ → ℕ) → Option ℕ → Option ℕ → Option ℕ
lift f (some a) (some b) = some (f a b)
lift f _ _ = none

abbrev holds : (ℕ → ℕ → Bool) → Option ℕ → Option ℕ → Bool
holds f (some a) (some b) = f a b
holds f _ _ = false

abbrev numbers : Double (Option ℕ)
numbers = record {
  nan = none;
  infinity = some 1_000_000_000;
  of_ℕ = λ n. some n;
  of_ℤ = λ z. some (pos_part z);
  of_text = decimal 0;
  add = lift (λ a b. a + b);
  sub = lift (λ a b. a - b);
  mul = lift (λ a b. a * b);
  div = lift (λ a b. a / b);
  pow = lift (λ a b. a ^ b);
  abs = λ a. a;
  sqrt = λ a. a;
  e = some 3;
  lt = holds ltb;
  le = holds leb;
  is_nan = λ a. elim a [ none ↦ true | some n ↦ false ];
}

numbers-IsOrdered : IsOrdered numbers
numbers-IsOrdered = ground arith

abbrev entry : String → ℕ → Entry (Option ℕ)
entry symbol price = (codes symbol, some price)

abbrev entries : List (Entry (Option ℕ))
entries =
    entry "ETH-6MAR70-30-C" 7
    ∷ entry "ETH-6MAR70-20-C" 5
    ∷ entry "ETH-6MAR70-20-P" 3
    ∷ entry "ETH-6MAR70-10-C" 9
    ∷ entry "ETH-6MAR70-10-P" 1
    ∷ []

final_book_get-runs :
    final_book_get numbers entries (some 20)
    ≡ some
        (entry "ETH-6MAR70-10-P" 1 ∷ entry "ETH-6MAR70-20-CAV" 4 ∷ entry "ETH-6MAR70-30-C" 7 ∷ [])
unfolding final_book_get sort_entries insert_entry split decimal
final_book_get-runs = refl

entries-HasType : All HasType entries
unfolding split
entries-HasType = (
  (codes "C", refl),
  ((codes "C", refl), ((codes "P", refl), ((codes "C", refl), ((codes "P", refl), tt)))),
)

final_book_get-FinalBook_example :
    FinalBook numbers entries (some 20) (final_book_get numbers entries (some 20))
final_book_get-FinalBook_example =
    final_book_get-FinalBook numbers numbers-IsOrdered (some 20) entries entries-HasType

contribution_get-weighed_sum_example :
    contribution_get numbers entries ≡ weighed_sum numbers entries
contribution_get-weighed_sum_example = contribution_get-weighed_sum numbers entries

contribution_get-runs :
    contribution_get numbers (entry "E-X-1-P" 2 ∷ entry "E-X-3-C" 6 ∷ entry "E-X-13-C" 26 ∷ [])
    ≡ some (some 4)
unfolding contribution_get contribution_from contribution_at split decimal
contribution_get-runs = refl

abbrev options : List Text
options =
    codes "ETH-6MAR70-10-C"
    ∷ codes "ETH-6MAR70-10-P"
    ∷ codes "ETH-6MAR70-20-C"
    ∷ codes "ETH-6MAR70-30-C"
    ∷ []

adjacent_strike_get-runs : adjacent_strike_get numbers options (some 25) ≡ some 20
unfolding adjacent_strike_get adjacent_from split decimal
adjacent_strike_get-runs = refl

adjacent_strike_get-IsAdjacent_example :
    IsAdjacent numbers options (some 25) (adjacent_strike_get numbers options (some 25))
adjacent_strike_get-IsAdjacent_example =
    adjacent_strike_get-IsAdjacent numbers numbers-IsOrdered options (some 25)

-- At 10 the mids are 8 apart, at 20 they are 2 apart: 20 + 3 * 2.
forward_price_get-runs :
    forward_price_get numbers (some 1) (λ text. some 1) entries options ≡ some 26
unfolding forward_price_get nearest nearest_from nearest_step reduced distinct_from split join
    decimal
forward_price_get-runs = refl

forward_price_get-IsNearest_example :
    (best : Nearest numbers) × IsNearest numbers entries options best
    × (forward_price_get numbers (some 1) (λ text. some 1) entries options
        ≡ numbers.add best.strike (
            numbers.mul
              (numbers.pow (some 3) (numbers.mul (some 1) (some 1)))
              (numbers.sub best.call_price best.put_price)))
forward_price_get-IsNearest_example =
    forward_price_get-IsNearest numbers numbers-IsOrdered (some 1) (λ text. some 1) entries options

abbrev day : ℕ → ℕ
day n = n * milliseconds_per_day

abbrev message : String → ℕ → ℕ → ℕ → ℕ → OptionSummary (Option ℕ)
message symbol at bid ask mark = record {
  symbol = codes symbol;
  timestamp = at;
  underlying_price = some (some 10);
  best_bid_price = some (some bid);
  best_ask_price = some (some ask);
  mark_price = some (some mark);
}

abbrev messages : List (OptionSummary (Option ℕ))
messages =
    message "ETH-A-10-C" (day 100) 2 4 4
    ∷ message "ETH-A-10-P" (day 100) 0 4 3
    ∷ message "ETH-A-20-P" (day 100) 2 9 3
    ∷ []

mid_book-IsMid_example :
    All (λ x. AnyOf (λ m. IsMid numbers m x) messages) (mid_book numbers messages [])
    × (filter_book numbers (codes "A") (mid_book numbers messages [])
        ≡ keep (λ x. text_includes (codes "A") x.0) (mid_book numbers messages []))
mid_book-IsMid_example = mid_book-IsMid numbers messages (codes "A")

-- Without a bid nothing is set, and the mark price stands for a mid far above it.
mid_book-runs : mid_book numbers messages [] ≡ entry "ETH-A-10-C" 30 ∷ entry "ETH-A-20-P" 30 ∷ []
unfolding mid_book mid_book_change mid_of
mid_book-runs = refl

-- Fridays T08 have the names of their days' last figures.
abbrev stream : Request → List (OptionSummary (Option ℕ))
stream (replay_normalized symbols from to) =
    if ltb from (day 106)
    then message "E-3-10-C" (day 101) 2 4 4
      ∷ message "E-3-10-P" (day 106 + 9 * milliseconds_per_hour) 2 4 4
      ∷ []
    else message "E-0-10-P" (day 107) 2 4 4 ∷ []
stream (stream_normalized symbols) = []

abbrev platform : Platform (Option ℕ)
platform = record {
  numbers = numbers;
  utc = record {
    day = get_utc_day;
    hour = get_utc_hours;
    at_hour = λ t h. t / milliseconds_per_day * milliseconds_per_day + h * milliseconds_per_hour;
    add_days = λ t n. t + n * milliseconds_per_day;
    subtract_days = λ t n. t - n * milliseconds_per_day;
    day_is = λ t. refl;
    hour_is = λ t. refl;
    at_hour_is = λ t h. refl;
    adds = λ t n. refl;
    subtracts = λ t n. refl;
  };
  clock = day 200;
  start_of_minute = λ t. t / 60000 * 60000;
  start_of_second = λ t. t / 1000 * 1000;
  second = λ t. t / 1000 % 60;
  add_seconds = λ t n. t + n * 1000;
  add_ms = λ t z. t + pos_part z - neg_part z;
  minute_before = λ t. t - 60000;
  diff = sub_ℕ;
  is_before = ltb;
  is_after = λ a b. ltb b a;
  is_same_or_after = λ a b. leb b a;
  diffs = λ a b. refl;
  same_or_after = λ a b. refl;
  format = λ t. (b'0' + t / milliseconds_per_day % 10) ∷ [];
  parse = λ text. none;
  two_weeks = day 14;
  year = day 365;
  five_seconds = 5000;
  instruments = λ t. codes "E-3-10-C" ∷ codes "E-0-10-P" ∷ codes "E-7-10-P" ∷ [];
  stream = stream;
}

abbrev config : VixConfig
config = record { replay_from = day 100; replay_to = day 110; report_frequency = none; asset = eth }

-- From day 100 the expiries are days 113 and 120, from the rollover at day 106 on 120 and 127.
abbrev summary_of : Option (VixCalculator (Option ℕ)) → Option (ℕ × ℕ × List Text × List Text × ℕ)
summary_of none = none
summary_of (some c) =
    some (c.completed, c.ref_date, c.near_option_list, c.next_option_list, c.rollover.next_expiry)

first_fetch_index-runs :
    summary_of (fetch_index platform 2 config)
    ≡ some (
      1,
      day 106 + 8 * milliseconds_per_hour,
      codes "E-0-10-P" ∷ [],
      codes "E-7-10-P" ∷ [],
      day 127 + 8 * milliseconds_per_hour,
    )
unfolding fetch_index new build_option_lists summary_stream create_stream pass take_in set_index
    calculate_index report report_time roll_over rollover_weekly weekly_next final_book_get
    filter_book mid_book_change mid_of split text_includes forward_price_get nearest nearest_from
    nearest_step reduced distinct_from join adjacent_strike_get adjacent_from decimal
    contribution_get sort_entries insert_entry contribution_from contribution_at
first_fetch_index-runs = refl

first_fetch_index-Completes_example :
    Completes platform (day 100) (day 110) (fetch_index platform (day 10 + 1) config)
first_fetch_index-Completes_example =
    first_fetch_index-Completes platform (day 10 + 1) config (omega arith)
