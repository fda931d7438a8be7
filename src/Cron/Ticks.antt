-- ===== src/Cron/Ticks.antt =====
-- How the runs of the jobs of services/cron.service.ts end.
use volatility_services.Prelude.{
  ℕ, ◌≡◌, ◌≢◌, refl, sym, ap, subst, ◌∙◌, ◌⊎◌, inl, inr, String, Option, none, some, List, [], ◌∷◌,
  Result, ok, err,
}
use volatility_services.Prelude.Text.{Text, codes}
use volatility_services.Errors.{
  Value, class_object, error, moleculer, failure, primitive, not_a_number, Classes, returned, threw,
  handle_error,
}
use volatility_services.Errors.Handlers.{handle_error-passed_on}
use volatility_services.Async.{
  Settled, fulfilled, rejected, Outcome, ResultAsync, Settled-cases, map-ok, map-passes,
}
use volatility_services.Cron.{
  EnsureError, not_set, set_or_default, EstimateParams, Job, Tick, quiet, logged, rejects, crons,
  estimate, compute_and_store_estimate, ticked, on_tick, eth_job, btc_job, both_jobs, ensure,
}

module _ {I C : Type 0} (call : Text → EstimateParams C → Settled I) (settings : C) (now : ℕ) where
  abbrev asked : Text → Text → Settled I
  asked action asset = call action (record { at = now; asset = asset; settings = settings })

  -- How a run that calls `action` for `asset` ends.
  pub data Ends (action asset : Text) : Tick → Type 0 where
    estimated : (index : I) → asked action asset ≡ fulfilled index → Ends action asset quiet
    failed :
        (v : Value)
        → asked action asset ≡ rejected v
        → v ≢ not_a_number
        → Ends action asset (logged v)
    lost : asked action asset ≡ rejected not_a_number → Ends action asset (rejects not_a_number)

  module _ (async : ResultAsync) (classes : Classes) (stringify : I → String) where
    abbrev promised : Settled I → Outcome I
    promised x = async.from_promise I x (handle_error classes)

    abbrev run : Settled I → Tick
    run x = ticked call (async.map I String (λ index. fulfilled (stringify index)) (promised x))

    run-fulfilled : (index : I) → run (fulfilled index) ≡ quiet
    run-fulfilled index = ap (ticked call) (
        map-ok async (λ index. fulfilled (stringify index)) (promised (fulfilled index)) index
          (stringify index) (async.from_fulfilled I index (handle_error classes)) refl)

    run-returned : (v : Value) → handle_error classes v ≡ returned v → run (rejected v) ≡ logged v
    run-returned v h =
        ap (λ o. ticked call (async.map I String (λ index. fulfilled (stringify index)) o))
          (async.from_returned I v v (handle_error classes) h)
        ∙ ap (ticked call) (async.map_err I String v (λ index. fulfilled (stringify index)))

    run-threw : (v : Value) → handle_error classes v ≡ threw v → run (rejected v) ≡ rejects v
    run-threw v h = ap (ticked call) (
        map-passes async (λ index. fulfilled (stringify index)) (promised (rejected v)) v
          (async.from_threw I v v (handle_error classes) h))

    run-rejected :
        (action asset : Text) (v : Value)
        → asked action asset ≡ rejected v
        → Ends action asset (run (rejected v))
    run-rejected action asset (class_object c) e =
        rw (run-returned (class_object c) (handle_error-passed_on classes (class_object c)))
          (failed (class_object c) e (λ n. cc))
    run-rejected action asset (error o) e =
        rw (run-returned (error o) (handle_error-passed_on classes (error o)))
          (failed (error o) e (λ n. cc))
    run-rejected action asset (moleculer m) e =
        rw (run-returned (moleculer m) (handle_error-passed_on classes (moleculer m)))
          (failed (moleculer m) e (λ n. cc))
    run-rejected action asset (failure n f) e =
        rw (run-returned (failure n f) (handle_error-passed_on classes (failure n f)))
          (failed (failure n f) e (λ n. cc))
    run-rejected action asset (primitive n) e =
        rw (run-returned (primitive n) (handle_error-passed_on classes (primitive n)))
          (failed (primitive n) e (λ n. cc))
    run-rejected action asset not_a_number e =
        rw (run-threw not_a_number (handle_error-passed_on classes not_a_number)) (lost e)

    run-Ends : (action asset : Text) → Ends action asset (run (asked action asset))
    run-Ends action asset = elim (Settled-cases (asked action asset)) [
      | inl (index, e) ↦
          subst (Ends action asset) (sym (ap run e ∙ run-fulfilled index)) (estimated index e)
      | inr (v, e) ↦ subst (Ends action asset) (sym (ap run e)) (run-rejected action asset v e)
    ]

    eth-Ends :
        (time : Text)
        → Ends
            (codes "index-eth.estimate")
            (codes "ETH")
            (on_tick call async classes stringify settings (eth_job time) now)
    unfolding on_tick compute_and_store_estimate estimate
    eth-Ends time = run-Ends (codes "index-eth.estimate") (codes "ETH")

    btc-Ends :
        (time : Text)
        → Ends
            (codes "index-btc.estimate")
            (codes "BTC")
            (on_tick call async classes stringify settings (btc_job time) now)
    unfolding on_tick compute_and_store_estimate estimate
    btc-Ends time = run-Ends (codes "index-btc.estimate") (codes "BTC")

    -- A job of the name and the asset that runs at the times of the variable, and what a run of it calls.
    pub record IsJob (env : Text → Option Text) (env_var name asset action : Text) (job : Job)
        : Type 0 where
      pub name_of : job.name ≡ name
      pub time : env env_var ≡ some job.cron_time
      pub asset_of : job.asset ≡ asset
      pub ends : Ends action asset (on_tick call async classes stringify settings job now)

    -- The two jobs, or a variable that is not set.
    abbrev pub AreJobs : (Text → Option Text) → Result EnsureError (List Job) → Type 0
    AreJobs env (ok (eth ∷ btc ∷ [])) =
        IsJob env (codes "CRON_MFIV_ETH_UPDATE_CRONTIME") (codes "MFIV.14D.ETH.ESTIMATE")
          (codes "ETH") (codes "index-eth.estimate") eth
        × IsJob env (codes "CRON_MFIV_BTC_UPDATE_CRONTIME") (codes "MFIV.14D.BTC.ESTIMATE")
            (codes "BTC") (codes "index-btc.estimate") btc
    AreJobs env (ok _) = ⊥
    AreJobs env (err (not_set env_var)) =
        ((env_var ≡ codes "CRON_MFIV_ETH_UPDATE_CRONTIME")
          ⊎ (env_var ≡ codes "CRON_MFIV_BTC_UPDATE_CRONTIME"))
        × (env env_var ≡ none)

    both-AreJobs :
        (env : Text → Option Text) (a b : Option Text)
        → env (codes "CRON_MFIV_ETH_UPDATE_CRONTIME") ≡ a
        → env (codes "CRON_MFIV_BTC_UPDATE_CRONTIME") ≡ b
        → AreJobs env (
            both_jobs
              (set_or_default (codes "CRON_MFIV_ETH_UPDATE_CRONTIME") a none)
              (set_or_default (codes "CRON_MFIV_BTC_UPDATE_CRONTIME") b none))
    both-AreJobs env none b e f = (inl refl, e)
    both-AreJobs env (some x) none e f = (inr refl, f)
    both-AreJobs env (some x) (some y) e f = (
      record { name_of = refl; time = e; asset_of = refl; ends = eth-Ends x },
      record { name_of = refl; time = f; asset_of = refl; ends = btc-Ends y },
    )

    -- Either one of the two variables of the jobs' times is not set, and that is the error; or there are
    -- exactly two jobs, first MFIV.14D.ETH.ESTIMATE of ETH and then MFIV.14D.BTC.ESTIMATE of BTC, each at the
    -- times of its own variable. A run of a job asks the index service of its asset for an estimate at the
    -- present time: it ends without an error where that call answers, and a rejection of the call is logged
    -- as it is; only NaN is passed on.
    pub crons-AreJobs : (env : Text → Option Text) → AreJobs env (crons env)
    unfolding crons ensure
    crons-AreJobs env =
        both-AreJobs env (env (codes "CRON_MFIV_ETH_UPDATE_CRONTIME"))
          (env (codes "CRON_MFIV_BTC_UPDATE_CRONTIME")) refl refl
