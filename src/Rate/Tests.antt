-- ===== src/Rate/Tests.antt =====
-- Rates that repeat, and a save that fails.
use volatility_services.Prelude.{
  ℕ, ◌≡◌, refl, String, Bool, true, false, Option, none, some, List, [], ◌∷◌, nat_beq,
  if◌then◌else◌,
}
use volatility_services.Rate.{
  RateResponse, RateRow, IsRates, nothing_saved, run, fetch_rate, persist, run-IsRates,
}

abbrev print : ℕ → String
print n = if nat_beq n 1 then "1" else "2"

abbrev response : ℕ → Option (RateResponse ℕ)
response n = some (record { contract_value = n; riskless_rate = n; riskless_rate_source = "AAVE" })

abbrev responses : List (Option (RateResponse ℕ) × Bool)
responses =
    (response 1, true)
    ∷ (response 1, true)
    ∷ (none, true)
    ∷ (response 2, false)
    ∷ (response 2, true)
    ∷ []

run-IsRates_example : IsRates (run print false responses nothing_saved)
run-IsRates_example = run-IsRates print false responses

abbrev values : List (RateRow ℕ) → List String
values [] = []
values (row ∷ rows) = row.value ∷ values rows

run-runs : values (run print false responses nothing_saved).saved ≡ "2" ∷ "1" ∷ []
unfolding run fetch_rate persist
run-runs = refl
