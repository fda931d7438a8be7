-- ===== src/Estimate/Evidence.antt =====
-- What an estimate of services/index.service.ts rests on.
use volatility_services.Prelude.{
  ◌≤◌, ◌<◌, ◌≡◌, ◌≢◌, ◌⊎◌, String, Bool, some, List, [], ◌∷◌, All, Result, ok, err, if◌then◌else◌,
}
use volatility_services.Expiries.{MfivExpiry}
use volatility_services.Ingest.{Summary, or_default}
use volatility_services.Estimate.{
  EstimateParams, MfivEvidence, Answer, evidence, no_index, EstimateError, bad_dates, no_options,
  Effect, IsIn, Estimator, option_summaries_lists, announce, persist,
}

-- `a` is at most as recent as `b`.
abbrev pub IsAsOld : {N R : Type 0} → Summary N R → Summary N R → Type 0
IsAsOld a b =
    (a.timestamp < b.timestamp)
    ⊎ ((a.timestamp ≡ b.timestamp) × (a.local_timestamp ≤ b.local_timestamp))

-- The evidence is of the dates and the options that were fetched for them, with the underlying price of
-- an option than which none is more recent.
pub record IsSound {N R : Type 0} (e : Estimator N R) (p : EstimateParams) (dates : MfivExpiry)
    (ev : MfivEvidence N R) : Type 0 where
  pub at : ev.params.at ≡ p.at
  pub near : ev.params.near_date ≡ dates.near_expiration
  pub next : ev.params.next_date ≡ dates.next_expiration
  pub options : ev.params.options ≡ option_summaries_lists e p.asset dates
  pub freshest :
      (o : Summary N R) × IsIn o ev.params.options
      × All (λ (x : Summary N R). IsAsOld x o) ev.params.options
      × (ev.params.underlying_price ≡ or_default o.underlying_price e.zero_price)
  pub computed : e.compute ev.context ev.params ≡ some ev.result

-- The answers there are, with what is announced and stored.
abbrev pub Outcome :
    {N R : Type 0}
    → Estimator N R
    → Bool
    → String
    → EstimateParams
    → MfivExpiry
    → Result EstimateError (Answer N R) × List (Effect N R)
    → Type 0
Outcome e skip_persist request_id p dates (err (bad_dates d), effects) = ⊥
Outcome e skip_persist request_id p dates (err no_options, effects) =
    (option_summaries_lists e p.asset dates ≡ []) × (effects ≡ [])
Outcome e skip_persist request_id p dates (ok no_index, effects) =
    (option_summaries_lists e p.asset dates ≢ []) × (effects ≡ [])
Outcome e skip_persist request_id p dates (ok (evidence ev), effects) =
    IsSound e p dates ev
    × (effects ≡ announce e ev ∷ (if skip_persist then [] else persist e ev request_id ∷ []))
