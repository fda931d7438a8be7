-- ===== src/Recordings/Tests.antt =====
-- A replay of two days, recorded in a table that is empty at its start.
use volatility_services.Prelude.{
  ℕ, Option, none, some, ◌+◌, ◌≡◌, refl, String, Bool, true, false, [], ◌∷◌, List, ltb, arith,
}
use volatility_services.BuildExpiries.Grouping.{day}
use volatility_services.BuildExpiries.{
  build_expiries, with_near, select, select_step, sort, delete_all, future_options,
}
use volatility_services.Calculator.{
  fetch_index, new, summary_stream, create_stream, sort_symbols, pass, set_option, take_in,
  next_report, report, calculate_index, report_time, roll_to, delete_entries, copy_entries,
  expiries_at,
}
use volatility_services.Calculator.Example.{platform, config}
use volatility_services.Recordings.{
  IndexRow, Table, computed_of, backfill_config, record_replay, backfill, socket_events, events_of,
  SocketEvent, sent, closed, execute_mfiv_insert, insert_all, indices_in,
}
use volatility_services.Recordings.Rows.{Recorded, record_replay-Recorded}
use volatility_services.Recordings.Sockets.{Closes, socket_events-Closes}

abbrev fresh : Table
fresh = record { rows = []; failures = 0 }

abbrev print : ℕ → String
print n = "80"

abbrev accepts : IndexRow → Bool
accepts row = ltb row.timestamp (day 107)

record_replay-Recorded_example :
    Recorded print accepts
      (computed_of (fetch_index platform 3 config 14))
      fresh
      (record_replay platform print accepts 3 config 14 true fresh)
    × Recorded print accepts
        (computed_of (fetch_index platform 3 (backfill_config config) 14))
        fresh
        (backfill platform print accepts 3 config 14 false fresh)
    × (record_replay platform print accepts 3 config 14 false fresh ≡ fresh)
record_replay-Recorded_example = record_replay-Recorded platform print accepts 3 config 14 fresh tt

socket_events-Closes_example :
    Closes platform (day 2 + 1) config 14 (socket_events platform (day 2 + 1) config 14)
socket_events-Closes_example = socket_events-Closes platform (day 2 + 1) config 14 (omega arith)

abbrev instants : List IndexRow → List ℕ
instants [] = []
instants (row ∷ rows) = row.timestamp ∷ instants rows

record_replay-runs :
    instants (record_replay platform print accepts 3 config 14 true fresh).rows
    ≡ (day 106 + 1000) ∷ []
unfolding record_replay insert_all execute_mfiv_insert indices_in fetch_index new summary_stream
    create_stream sort_symbols pass set_option take_in next_report report calculate_index
    report_time roll_to delete_entries copy_entries expiries_at build_expiries with_near select
    select_step sort delete_all future_options
record_replay-runs = refl

abbrev shape : List (SocketEvent ℕ) → List (Option ℕ)
shape [] = []
shape (sent index ∷ events) = some index.timestamp ∷ shape events
shape (closed ∷ events) = none ∷ shape events

-- An index before the rollover, one at it and one after it, and the end.
socket_events-runs :
    shape (socket_events platform 3 config 14)
    ≡ some (day 106 + 1000) ∷ some (day 107) ∷ some (day 107 + 9000) ∷ none ∷ []
unfolding socket_events events_of fetch_index new summary_stream create_stream sort_symbols pass
    set_option take_in next_report report calculate_index report_time roll_to delete_entries
    copy_entries expiries_at build_expiries with_near select select_step sort delete_all
    future_options
socket_events-runs = refl
