-- ===== src/Ws/History.antt =====
-- The action mfiv of services/ws.service.ts, which reads the stored indices. The query of the database
-- and the `takeNth` of transducist enter as a `Source`; `I` is a row's other fields.
pub mod Pages
mod Tests
use volatility_services.Prelude.{
  ℕ, zero, suc, ◌*◌, ◌<◌, ◌≡◌, String, Bool, Option, none, some, List, [], ◌∷◌, Result, ok, err,
  if◌then◌else◌,
}
use volatility_services.Prelude.Keys.{symbol_key}
use volatility_services.Expiries.{Asset}
use volatility_services.Ws.Authorize.{AuthError, handle_authorize2}

pub record MfivRow (I : Type 0) : Type 0 where
  pub timestamp : ℕ
  pub rest : I

pub record ApiMfivParams : Type 0 where
  pub api_key : String
  pub interval : String
  pub date_from : ℕ
  pub date_to : ℕ
  pub time_period : String
  pub asset : Asset

pub record Page (I : Type 0) : Type 0 where
  -- `data`
  pub rows : List (MfivRow I)
  pub prev : Option String
  pub next : Option String

-- `list[i]`
abbrev pub get_elem? {ℓ} : {A : Type ℓ} → ℕ → List A → Option A
get_elem? i [] = none
get_elem? zero (x ∷ xs) = some x
get_elem? (suc i) (x ∷ xs) = get_elem? i xs

pub record Source (I : Type 0) : Type 0 where
  -- `queryMfiv`, none where the database fails
  pub query_mfiv : ApiMfivParams → Option (List (MfivRow I))
  pub take_nth : ℕ → List (MfivRow I) → List (MfivRow I)
  -- every n-th element, from the first on
  pub takes :
      (n i : ℕ) (rows : List (MfivRow I))
      → 0 < n
      → get_elem? i (take_nth n rows) ≡ get_elem? (i * n) rows

-- `filterMap`
abbrev pub filter_map : String → Option ℕ
filter_map interval =
    if symbol_key.same interval "5M"
    then some 1
    else if symbol_key.same interval "15M"
    then some 3
    else if symbol_key.same interval "1H"
    then some 11
    else if symbol_key.same interval "1D"
    then some 287
    else none

abbrev pub page_of : {I : Type 0} → List (MfivRow I) → Page I
page_of rows = record { rows = rows; prev = none; next = none }

module _ {I S : Type 0} (tokens_check : String → S → Bool × S) (query_key : String → Option String)
    (src : Source I) where
  -- The rows of the page: none where the interval is unknown or the database fails.
  unfoldable pub rows_of : ApiMfivParams → List (MfivRow I)
  rows_of params = elim (filter_map params.interval) as (λ _. List (MfivRow I)) [
    | none ↦ []
    | some n ↦ elim (src.query_mfiv params) as (λ _. List (MfivRow I)) [
      | none ↦ []
      | some rows ↦ src.take_nth n rows
    ]
  ]

  unfoldable pub mfiv : ApiMfivParams → S → Result AuthError (Page I) × S
  unfolding rows_of
  mfiv params s =
      let auth = handle_authorize2 query_key tokens_check params.api_key s in
      elim auth.0 as (λ _. Result AuthError (Page I) × S) [
        | err e ↦ (err e, auth.1)
        | ok u ↦ (ok (page_of (rows_of params)), auth.1)
      ]
