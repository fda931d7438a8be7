-- ===== src/Cron/Tests.antt =====
-- Jobs at every minute, and an index service that rejects.
use volatility_services.Prelude.{ℕ, ◌≡◌, refl, String, Option, some, [], if◌then◌else◌}
use volatility_services.Prelude.Text.{Text, text_beq, codes}
use volatility_services.Errors.{handle_error, strictly_equal}
use volatility_services.Errors.Example.{classes, duplicate}
use volatility_services.Async.{Settled, fulfilled, rejected}
use volatility_services.Async.Example.{neverthrow}
use volatility_services.Cron.{
  EstimateParams, eth_job, btc_job, logged, quiet, crons, on_tick, compute_and_store_estimate,
  estimate,
}
use volatility_services.Cron.Ticks.{AreJobs, crons-AreJobs}

abbrev every_minute : Text → Option Text
every_minute name = some (codes "0 * * * * *")

-- Only the service of BTC answers, with the time that it is asked for.
abbrev call : Text → EstimateParams String → Settled ℕ
call action params =
    if text_beq action (codes "index-btc.estimate") then fulfilled params.at else rejected duplicate

abbrev stringify : ℕ → String
stringify index = "estimate"

crons-AreJobs_example :
    AreJobs call "MFIV" 7 neverthrow classes stringify every_minute (crons every_minute)
crons-AreJobs_example = crons-AreJobs call "MFIV" 7 neverthrow classes stringify every_minute

on_tick-eth : on_tick call neverthrow classes stringify "MFIV" (eth_job []) 7 ≡ logged duplicate
unfolding on_tick compute_and_store_estimate estimate handle_error strictly_equal
on_tick-eth = refl

on_tick-btc : on_tick call neverthrow classes stringify "MFIV" (btc_job []) 7 ≡ quiet
unfolding on_tick compute_and_store_estimate estimate
on_tick-btc = refl
