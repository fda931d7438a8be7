-- ===== src/Tokens/Tests.antt =====
-- Tokens in a concrete table.
use volatility_services.Prelude.{
  ◌+◌, ◌*◌, ◌≡◌, refl, String, true, false, if◌then◌else◌, none, some, [], ◌∷◌,
}
use volatility_services.Prelude.Keys.{symbol_key}
use volatility_services.TimePeriod.{milliseconds_per_day}
use volatility_services.Tokens.{api_key, AuthToken, GenerateParams, CheckParams, check, remove}
use volatility_services.Tokens.Checks.{check-check}
use volatility_services.Tokens.Removal.{is_removed, check-remove}
use volatility_services.Tokens.Table.{table, secure}

abbrev for_a_week : GenerateParams
for_a_week = record {
  type = api_key;
  expire_in_num_days = some 7;
  expiry = none;
  owner = "volatility";
}

abbrev asked : String → CheckParams
asked token = record { type = api_key; token = token; owner = none }

abbrev saved : AuthToken
saved = record {
  id = some 0;
  type = api_key;
  owner = "volatility";
  token = "k";
  expiry = some (7 * milliseconds_per_day);
  last_used_at = none;
}

-- Accepted until the end of the week, and not after it.
check-runs :
    ((check secure table (asked "k") (7 * milliseconds_per_day) (saved ∷ [])).0 ≡ true)
    × ((check secure table (asked "k") (7 * milliseconds_per_day + 1) (saved ∷ [])).0 ≡ false)
unfolding check
check-runs = (refl, refl)

check-check_example :
    (check secure table (asked "k") 6 (check secure table (asked "k") 5 (saved ∷ [])).1).0
    ≡ (check secure table (asked "k") 6 (saved ∷ [])).0
check-check_example = check-check secure table (asked "k") (asked "k") 5 6 (saved ∷ [])

check-remove_example :
    (check secure table (asked "k") 5 (remove secure table api_key "k" (saved ∷ []))).0 ≡ (
      if is_removed secure table api_key "k" (asked "k")
      then false
      else (check secure table (asked "k") 5 (saved ∷ [])).0)
check-remove_example = check-remove secure table api_key "k" (saved ∷ []) (asked "k") 5
