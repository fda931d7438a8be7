-- ===== src/StreamHelpers/Tests.antt =====
-- A replay of option summaries, and a data source that is initialized at the third tick.
use volatility_services.Prelude.{ℕ, ◌≡◌, refl, Bool, true, false, some, List, [], ◌∷◌, leb}
use volatility_services.Prelude.Strings.{starts_with}
use volatility_services.StreamHelpers.{
  StreamOptions, Message, normalize_trades, normalize_options_summary, get_normalizers,
  construct_data_type_filter, requested_per_exchange, requested_type, resolved, rejected, IsFirst,
  wait_from, wait_for_datasource_ready, wait_for_datasource_ready-IsFirst,
}

abbrev options : List StreamOptions
options =
    record {
      exchange = "deribit";
      data_types = "option_summary" ∷ "trade_bar_1m" ∷ [];
      with_disconnect_messages = true;
    }
    ∷ []

abbrev summary : Message
summary = record { type = "option_summary"; exchange = "deribit" }

filter_runs :
    (construct_data_type_filter options summary ≡ some false)
    × (construct_data_type_filter options (record { type = "disconnect"; exchange = "deribit" })
        ≡ some true)
    × (get_normalizers ("option_summary" ∷ "trade_bar_1m" ∷ [])
        ≡ normalize_trades ∷ normalize_options_summary ∷ [])
unfolding construct_data_type_filter requested_per_exchange requested_type get_normalizers
    starts_with
filter_runs = (refl, refl, refl)

abbrev at_third : ℕ → Bool
at_third tick = leb 3 tick

wait_for_datasource_ready-IsFirst_example :
    IsFirst at_third 0 15 (wait_for_datasource_ready at_third 15)
wait_for_datasource_ready-IsFirst_example = wait_for_datasource_ready-IsFirst at_third 15

wait_runs :
    (wait_for_datasource_ready at_third 15 ≡ resolved 3)
    × (wait_for_datasource_ready at_third 2 ≡ rejected 2)
unfolding wait_for_datasource_ready wait_from
wait_runs = (refl, refl)
