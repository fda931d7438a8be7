-- ===== src/Rate.antt =====
-- services/rate.service.ts: the riskless rate, stored when it differs from the last one stored.
-- `N` is the type of rates; the answer of the source and whether the database saves are arguments.
mod Tests
use volatility_services.Prelude.{
  ℕ, ◌≡◌, refl, sym, ap, ◌∙◌, String, Bool, true, false, Option, none, some, List, [], ◌∷◌, Result,
  ok, err, if◌then◌else◌, Bool-cases, inl, inr, arith,
}
use volatility_services.Prelude.Keys.{symbol_key}

pub record RateResponse (N : Type 0) : Type 0 where
  pub contract_value : N
  pub riskless_rate : N
  pub riskless_rate_source : String

-- The row that `Mappers.Rate.from` makes.
pub record RateRow (N : Type 0) : Type 0 where
  pub value : String
  pub source_value : N
  pub source : String

pub record Rates (N : Type 0) : Type 0 where
  pub last_rate : Option (RateRow N)
  -- the rows that were saved, the latest first
  pub saved : List (RateRow N)

pub data RateError : Type 0 where
  source_failed save_failed : RateError

abbrev pub nothing_saved : {N : Type 0} → Rates N
nothing_saved = record { last_rate = none; saved = [] }

-- `lastRate?.value !== text`
abbrev pub differs : {N : Type 0} → Option (RateRow N) → String → Bool
differs none text = true
differs (some row) text = if symbol_key.same row.value text then false else true

module _ {N : Type 0} (print : N → String) where
  abbrev pub rate_row : RateResponse N → RateRow N
  rate_row r = record {
    value = print r.riskless_rate;
    source_value = r.contract_value;
    source = r.riskless_rate_source;
  }

  -- `persist`, where the last argument says whether the database saves.
  unfoldable pub persist : RateResponse N → Bool → Rates N → Option (Rates N)
  persist r false s = none
  persist r true s = some (record { last_rate = some (rate_row r); saved = rate_row r ∷ s.saved })

  unfoldable pub fetch_rate :
      Bool → Option (RateResponse N) → Bool → Rates N → Result RateError (RateResponse N) × Rates N
  unfolding persist
  fetch_rate skip_persist none saves s = (err source_failed, s)
  fetch_rate skip_persist (some r) saves s =
      if skip_persist
      then (ok r, s)
      else if differs s.last_rate (print r.riskless_rate)
      then elim (persist r saves s) as (λ _. Result RateError (RateResponse N) × Rates N) [
        | none ↦ (err save_failed, s)
        | some s' ↦ (ok r, s')
      ]
      else (ok r, s)

  -- The calls of the action, one after the other.
  unfoldable pub run : Bool → List (Option (RateResponse N) × Bool) → Rates N → Rates N
  unfolding fetch_rate
  run skip_persist [] s = s
  run skip_persist ((r, saves) ∷ rs) s = run skip_persist rs (fetch_rate skip_persist r saves s).1

-- No row has the value of the row saved before it.
abbrev pub IsChanging : {N : Type 0} → List (RateRow N) → Type 0
IsChanging [] = Unit
IsChanging (row ∷ []) = Unit
IsChanging (row ∷ before ∷ rows) =
    (symbol_key.same before.value row.value ≡ false) × IsChanging (before ∷ rows)

abbrev pub latest : {N : Type 0} → List (RateRow N) → Option (RateRow N)
latest [] = none
latest (row ∷ rows) = some row

-- The last rate is the row saved last, and the rows change.
abbrev pub IsRates : {N : Type 0} → Rates N → Type 0
IsRates s = (s.last_rate ≡ latest s.saved) × IsChanging s.saved

add-IsChanging :
    {N : Type 0} (row : RateRow N) (rows : List (RateRow N))
    → differs (latest rows) row.value ≡ true
    → IsChanging rows
    → IsChanging (row ∷ rows)
add-IsChanging row [] h k = tt
add-IsChanging row (before ∷ rows) h k = (ground arith, k)

all_of_choice :
    {N : Type 0} (b : Bool) (x y : Result RateError (RateResponse N) × Rates N)
    → (b ≡ true → IsRates x.1)
    → IsRates y.1
    → IsRates (if b then x else y).1
all_of_choice true x y h k = h refl
all_of_choice false x y h k = k

module _ {N : Type 0} (print : N → String) where
  -- What follows a rate that differs.
  abbrev saved_or :
      RateResponse N → Rates N → Option (Rates N) → Result RateError (RateResponse N) × Rates N
  saved_or r s none = (err save_failed, s)
  saved_or r s (some s') = (ok r, s')

  persist-IsRates :
      (r : RateResponse N) (saves : Bool) (s : Rates N)
      → IsRates s
      → differs s.last_rate (print r.riskless_rate) ≡ true
      → IsRates (saved_or r s (persist print r saves s)).1
  unfolding persist
  persist-IsRates r false s h k = h
  persist-IsRates r true s h k = (
    refl,
    add-IsChanging (rate_row print r) s.saved
        (ap (λ o. differs o (print r.riskless_rate)) (sym h.0) ∙ k) h.1,
  )

  fetch_rate-IsRates :
      (skip_persist : Bool) (r : Option (RateResponse N)) (saves : Bool) (s : Rates N)
      → IsRates s
      → IsRates (fetch_rate print skip_persist r saves s).1
  unfolding fetch_rate
  fetch_rate-IsRates skip none saves s h = h
  fetch_rate-IsRates true (some r) saves s h = h
  fetch_rate-IsRates false (some r) saves s h =
      all_of_choice (differs s.last_rate (print r.riskless_rate))
        (saved_or r s (persist print r saves s)) (ok r, s) (λ k. persist-IsRates r saves s h k) h

  run_from-IsRates :
      (skip_persist : Bool) (rs : List (Option (RateResponse N) × Bool)) (s : Rates N)
      → IsRates s
      → IsRates (run print skip_persist rs s)
  unfolding run
  run_from-IsRates skip [] s h = h
  run_from-IsRates skip ((r, saves) ∷ rs) s h =
      run_from-IsRates skip rs (fetch_rate print skip r saves s).1
        (fetch_rate-IsRates skip r saves s h)

  -- Whatever the source answers and whether or not the database saves, no two rates stored one after
  -- the other are equal, and the last rate kept is the one stored last.
  pub run-IsRates :
      (skip_persist : Bool) (rs : List (Option (RateResponse N) × Bool))
      → IsRates (run print skip_persist rs nothing_saved)
  run-IsRates skip rs = run_from-IsRates skip rs nothing_saved (refl, tt)
