-- ===== src/Cron.antt =====
-- services/cron.service.ts with src/service_helpers/index_helper.ts and src/lib/utils/ensure.ts: the jobs that
-- ask the index services for an estimate. When a job runs is up to moleculer-cron; the call of an action is a
-- function of its name and its parameters, whose promise is settled. `I` is an estimate, `C` the settings
-- that are passed on. The parameters for Fleek, which nothing uses, are left out.
pub mod Ticks
mod Tests
use volatility_services.Prelude.{
  ℕ, ◌++◌, String, Option, none, some, List, [], ◌∷◌, Result, ok, err,
}
use volatility_services.Prelude.Text.{Text, codes, to_upper, to_lower}
use volatility_services.Errors.{Value, Classes, handle_error}
use volatility_services.Async.{Settled, fulfilled, rejected, Outcome, ResultAsync}

-- The error of `ensure`, of the variable's name.
pub data EnsureError : Type 0 where
  not_set : Text → EnsureError

abbrev pub set_or_default : Text → Option Text → Option Text → Result EnsureError Text
set_or_default env_var none none = err (not_set env_var)
set_or_default env_var none (some default_value) = ok default_value
set_or_default env_var (some value) default_value = ok value

-- `env` is process.env.
unfoldable pub ensure : (Text → Option Text) → Text → Option Text → Result EnsureError Text
ensure env env_var default_value = set_or_default env_var (env (to_upper env_var)) default_value

pub record EstimateParams (C : Type 0) : Type 0 where
  pub at : ℕ
  pub asset : Text
  pub settings : C

pub record Job : Type 0 where
  pub name : Text
  pub cron_time : Text
  pub asset : Text

abbrev pub eth_job : Text → Job
eth_job time = record {
  name = codes "MFIV.14D.ETH.ESTIMATE";
  cron_time = time;
  asset = codes "ETH";
}

abbrev pub btc_job : Text → Job
btc_job time = record {
  name = codes "MFIV.14D.BTC.ESTIMATE";
  cron_time = time;
  asset = codes "BTC";
}

abbrev pub both_jobs :
    Result EnsureError Text → Result EnsureError Text → Result EnsureError (List Job)
both_jobs (err e) btc = err e
both_jobs (ok eth) (err e) = err e
both_jobs (ok eth) (ok btc) = ok (eth_job eth ∷ btc_job btc ∷ [])

-- The jobs of the service, whose constructor throws without their times.
unfoldable pub crons : (Text → Option Text) → Result EnsureError (List Job)
unfolding ensure
crons env =
    both_jobs (ensure env (codes "CRON_MFIV_ETH_UPDATE_CRONTIME") none)
      (ensure env (codes "CRON_MFIV_BTC_UPDATE_CRONTIME") none)

-- How a job's run ends: without an error, with one logged, or with a rejection.
pub data Tick : Type 0 where
  quiet : Tick
  logged : Value → Tick
  rejects : Value → Tick

module _ {I C : Type 0} (call : Text → EstimateParams C → Settled I) where
  -- `IndexHelper.estimate`
  unfoldable pub estimate : EstimateParams C → Settled I
  estimate params = call (codes "index-" ++ (to_lower params.asset ++ codes ".estimate")) params

  -- The last argument but one is `JSON.stringify`.
  unfoldable pub compute_and_store_estimate :
      ResultAsync → Classes → (I → String) → EstimateParams C → Outcome String
  compute_and_store_estimate async classes stringify params =
      async.map I String (λ index. fulfilled (stringify index))
        (async.from_promise I (estimate params) (handle_error classes))

  -- The await of a result whose error value is logged.
  abbrev pub ticked : Outcome String → Tick
  ticked (fulfilled (ok text)) = quiet
  ticked (fulfilled (err v)) = logged v
  ticked (rejected v) = rejects v

  unfoldable pub on_tick : ResultAsync → Classes → (I → String) → C → Job → ℕ → Tick
  unfolding compute_and_store_estimate
  on_tick async classes stringify settings job now = ticked (
      compute_and_store_estimate async classes stringify
        (record { at = now; asset = job.asset; settings = settings }))
