-- ===== src/Instruments/Tests.antt =====
-- Four instruments, of which one has gone, one is to come and one has another expiry.
use volatility_services.Prelude.{
  ℕ, ◌≡◌, refl, String, true, ◌&&◌, Option, none, some, List, [], ◌∷◌, map,
}
use volatility_services.Expiries.{eth}
use volatility_services.Instruments.{
  InstrumentInfo, Infos, InstrumentInfoParams, to_partial_instrument_info, fetch_instruments,
  fetch_available_instruments, is_available, counted, is_gone, flip, expires_in,
  fetch_available_instruments-fetch_instruments,
}

abbrev instrument : String → ℕ → Option ℕ → ℕ → InstrumentInfo
instrument id since to expiry = record {
  id = id;
  base_currency = eth;
  active = true;
  available_since = since;
  available_to = to;
  expiry = some expiry;
}

abbrev infos : List InstrumentInfo
infos =
    instrument "A" 1 none 20
    ∷ instrument "B" 1 (some 5) 20
    ∷ instrument "C" 15 (some 16) 20
    ∷ instrument "D" 1 none 30
    ∷ []

abbrev refreshed : Infos
refreshed = record {
  instrument_infos = map to_partial_instrument_info infos;
  last_updated_at = some 9;
}

abbrev asked : InstrumentInfoParams
asked = record { timestamp = 10; expiration_dates = 20 ∷ [] }

fetch_available_instruments-fetch_instruments_example :
    fetch_available_instruments asked refreshed
    ≡ counted
        (λ item. flip (is_gone 10 item) && expires_in (20 ∷ []) item.expiry)
        (map to_partial_instrument_info infos)
unfolding fetch_instruments
fetch_available_instruments-fetch_instruments_example =
    fetch_available_instruments-fetch_instruments infos 9
      (record { instrument_infos = []; last_updated_at = none }) refreshed asked refl

-- "C" is available from 15 on only.
available_runs : fetch_available_instruments asked refreshed ≡ "A" ∷ "C" ∷ []
unfolding fetch_available_instruments is_available
available_runs = refl
