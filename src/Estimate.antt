-- ===== src/Estimate.antt =====
-- services/index.service.ts: an estimate of the index, its announcement and its row in the database,
-- with optionSummariesLists of src/service_helpers/ingest_helper.ts. The calls of the ingest service,
-- node-volatility-mfiv and transducist enter as an `Estimator`. `N` is the type of numbers, `R` the rest
-- of a summary.
pub mod Evidence
mod Tests
use volatility_services.Prelude.{
  ℕ, ◌≡◌, ◌⊎◌, ◌≤◌, ◌<◌, String, Bool, Option, none, some, List, [], ◌∷◌, ◌++◌, All, Result, ok,
  err, ltb, if◌then◌else◌,
}
use volatility_services.Prelude.Int.{ℤ, pos, negsuc, ◌≤ℤ◌}
use volatility_services.Prelude.Text.{Text, codes}
use volatility_services.Expiries.{Asset, eth, btc, sol, MfivExpiry, mfiv_dates}
use volatility_services.TimePeriod.{DateError}
use volatility_services.Ingest.{Summary, or_default}

pub record EstimateParams : Type 0 where
  pub at : ℕ
  pub exchange : String
  pub methodology : Text
  pub asset : Asset
  pub time_period : Text
  pub symbol_type : String
  pub expiry_type : Text
  pub contract_type : List String

pub record RisklessRate (N : Type 0) : Type 0 where
  pub riskless_rate : N
  pub riskless_rate_at : String
  pub riskless_rate_source : String

pub record EvidenceContext (N : Type 0) : Type 0 where
  pub estimate : EstimateParams
  pub rate : RisklessRate N

pub record EvidenceParams (N R : Type 0) : Type 0 where
  pub at : ℕ
  pub near_date : ℕ
  pub next_date : ℕ
  pub options : List (Summary N R)
  pub underlying_price : N

pub record EvidenceResult (N : Type 0) : Type 0 where
  pub d_vol : Option N
  pub invd_vol : Option N

pub record MfivEvidence (N R : Type 0) : Type 0 where
  pub version : String
  pub type : String
  pub context : EvidenceContext N
  pub params : EvidenceParams N R
  pub result : EvidenceResult N

-- The row of MethodologyIndex that `persist` saves.
pub record IndexRow : Type 0 where
  pub symbol_type : String
  pub timestamp : ℕ
  pub asset : Asset
  pub exchange : String
  pub methodology : Text
  pub time_period : Text
  pub value : String
  pub request_id : String
  pub i_val : String
  pub near : ℕ
  pub next : ℕ

-- The answer of the action: an evidence, or the `Error("No index")` that is returned, not thrown.
pub data Answer (N R : Type 0) : Type 0 where
  evidence : MfivEvidence N R → Answer N R
  no_index : Answer N R

-- What it throws: an error of the dates, or that of reading `options[0].symbol` of no options.
pub data EstimateError : Type 0 where
  bad_dates : DateError → EstimateError
  no_options : EstimateError

pub data Effect (N R : Type 0) : Type 0 where
  broadcast : Text → MfivEvidence N R → Effect N R
  save : IndexRow → Effect N R

-- `a` against `b` by the time stamps, then by the local ones: 1, -1 or 0.
unfoldable pub cmp_most_recent : {N R : Type 0} → Summary N R → Summary N R → ℤ
cmp_most_recent a b =
    if ltb b.timestamp a.timestamp
    then pos 1
    else if ltb a.timestamp b.timestamp
    then negsuc 0
    else if ltb b.local_timestamp a.local_timestamp
    then pos 1
    else if ltb a.local_timestamp b.local_timestamp
    then negsuc 0
    else pos 0

unfoldable pub cmp_oldest : {N R : Type 0} → Summary N R → Summary N R → ℤ
cmp_oldest a b =
    if ltb a.timestamp b.timestamp
    then pos 1
    else if ltb b.timestamp a.timestamp
    then negsuc 0
    else if ltb a.local_timestamp b.local_timestamp
    then pos 1
    else if ltb b.local_timestamp a.local_timestamp
    then negsuc 0
    else pos 0

abbrev pub IsIn : {A : Type 0} → A → List A → Type 0
IsIn x [] = ⊥
IsIn x (y ∷ ys) = (x ≡ y) ⊎ IsIn x ys

pub record Estimator (N R : Type 0) : Type 0 where
  pub zero_price : N
  pub default_rate : RisklessRate N
  -- `toString`
  pub print : N → String
  -- The action ingest-<asset>.summaries for an expiry, `none` where it is rejected.
  pub summaries : Asset → ℕ → Option (List (Summary N R))
  -- `none` where `compute` throws.
  pub compute : EvidenceContext N → EvidenceParams N R → Option (EvidenceResult N)
  -- `chainFrom(options).max(cmpMostRecent)`: none is at most an empty chain's.
  pub find_most_recent : List (Summary N R) → Option (Summary N R)
  pub greatest :
      (o : Summary N R) (xs : List (Summary N R))
      → find_most_recent xs ≡ some o
      → IsIn o xs × All (λ (x : Summary N R). cmp_most_recent x o ≤ℤ pos 0) xs
  pub exists_greatest : (xs : List (Summary N R)) → find_most_recent xs ≡ none → xs ≡ []

abbrev pub fulfilled {ℓ} : {A : Type ℓ} → Option (List A) → List A
fulfilled none = []
fulfilled (some xs) = xs

abbrev pub asset_name : Asset → Text
asset_name eth = codes "ETH"
asset_name btc = codes "BTC"
asset_name sol = codes "SOL"

-- `${ctx.methodology}.${ctx.timePeriod}.${ctx.asset}.index.created`
abbrev pub created_event : EstimateParams → Text
created_event p =
    p.methodology
    ++ (b'.' ∷ (p.time_period ++ (b'.' ∷ (asset_name p.asset ++ codes ".index.created"))))

module _ {N R : Type 0} (e : Estimator N R) where
  -- `optionSummariesLists`: the lists of the calls that were fulfilled.
  unfoldable pub option_summaries_lists : Asset → MfivExpiry → List (Summary N R)
  option_summaries_lists asset dates =
      fulfilled (e.summaries asset dates.near_expiration)
      ++ fulfilled (e.summaries asset dates.next_expiration)

  abbrev pub underlying_of : Option (Summary N R) → N
  underlying_of none = e.zero_price
  underlying_of (some o) = or_default o.underlying_price e.zero_price

  abbrev pub printed : Option N → String
  printed none = "undefined"
  printed (some n) = e.print n

  -- `announce`
  unfoldable pub announce : MfivEvidence N R → Effect N R
  announce ev = broadcast (created_event ev.context.estimate) ev

  -- `persist`, which logs an error of the database
  unfoldable pub persist : MfivEvidence N R → String → Effect N R
  persist ev request_id = save (record {
    symbol_type = "option";
    timestamp = ev.params.at;
    asset = ev.context.estimate.asset;
    exchange = ev.context.estimate.exchange;
    methodology = ev.context.estimate.methodology;
    time_period = ev.context.estimate.time_period;
    value = printed ev.result.d_vol;
    request_id = request_id;
    i_val = printed ev.result.invd_vol;
    near = ev.params.near_date;
    next = ev.params.next_date;
  })

  abbrev pub context_of : EstimateParams → Option (RisklessRate N) → EvidenceContext N
  context_of p rate = record { estimate = p; rate = or_default rate e.default_rate }

  abbrev pub params_of : EstimateParams → MfivExpiry → List (Summary N R) → EvidenceParams N R
  params_of p dates options = record {
    at = p.at;
    near_date = dates.near_expiration;
    next_date = dates.next_expiration;
    options = options;
    underlying_price = underlying_of (e.find_most_recent options);
  }

  abbrev pub evidence_of :
      EvidenceContext N → EvidenceParams N R → EvidenceResult N → MfivEvidence N R
  evidence_of context params result = record {
    version = "2022-05-10";
    type = "MFIV.ESTIMATE.EVIDENCE";
    context = context;
    params = params;
    result = result;
  }

  -- From the options on, which are not empty.
  unfoldable pub estimate_from :
      Bool → String → EvidenceContext N → EvidenceParams N R → Answer N R × List (Effect N R)
  unfolding announce persist
  estimate_from skip_persist request_id context params = elim (e.compute context params) [
    | none ↦ (no_index, [])
    | some result ↦
        let ev = evidence_of context params result in
        (evidence ev, announce ev ∷ (if skip_persist then [] else persist ev request_id ∷ []))
  ]

  abbrev pub with_options :
      Bool
      → String
      → EstimateParams
      → Option (RisklessRate N)
      → MfivExpiry
      → List (Summary N R)
      → Result EstimateError (Answer N R) × List (Effect N R)
  with_options skip_persist request_id p rate dates [] = (err no_options, [])
  with_options skip_persist request_id p rate dates (o ∷ os) =
      let r =
        estimate_from skip_persist request_id (context_of p rate) (params_of p dates (o ∷ os)) in
      (ok r.0, r.1)

  -- `indexOperation`, whose `rate` is the one of the last event rate.updated.
  unfoldable pub index_operation :
      Bool
      → String
      → Option (RisklessRate N)
      → EstimateParams
      → Result EstimateError (Answer N R) × List (Effect N R)
  unfolding option_summaries_lists estimate_from
  index_operation skip_persist request_id rate p =
      elim (mfiv_dates p.at p.time_period p.expiry_type none) [
        | err d ↦ (err (bad_dates d), [])
        | ok dates ↦
            with_options skip_persist request_id p rate dates (option_summaries_lists p.asset dates)
      ]
