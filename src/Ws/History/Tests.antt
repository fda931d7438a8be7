-- ===== src/Ws/History/Tests.antt =====
-- Forty rows, five minutes apart, by the interval of an hour.
use volatility_services.Prelude.{
  ℕ, zero, suc, ◌+◌, ◌*◌, ◌-◌, ◌<◌, ◌≡◌, refl, ap, ◌∙◌, String, Bool, true, false, Option, none,
  some, List, [], ◌∷◌, ok, err, arith,
}
use volatility_services.Expiries.{eth}
use volatility_services.Ws.Authorize.{forbidden, handle_authorize2, check_key}
use volatility_services.Ws.History.{
  MfivRow, ApiMfivParams, Source, get_elem?, rows_of, Page, page_of, mfiv,
}
use volatility_services.Ws.History.Pages.{IsEveryFive, Spacing, mfiv-Spacing}

-- The elements after `skip` more ones, and every n-th from there.
abbrev pick : ℕ → ℕ → List (MfivRow ℕ) → List (MfivRow ℕ)
pick n skip [] = []
pick n zero (x ∷ xs) = x ∷ pick n (n - 1) xs
pick n (suc k) (x ∷ xs) = pick n k xs

get-pick :
    (n skip i : ℕ) (rows : List (MfivRow ℕ))
    → 0 < n
    → get_elem? i (pick n skip rows) ≡ get_elem? (skip + i * n) rows
get-pick n skip i [] h = refl
get-pick n zero zero (x ∷ xs) h =
    let at : 0 ≡ 0 + 0 * n = omega arith in ap (λ m. get_elem? m (x ∷ xs)) at
get-pick n zero (suc i) (x ∷ xs) h =
    let at : suc (n - 1 + i * n) ≡ 0 + suc i * n = grind arith in
    get-pick n (n - 1) i xs h ∙ ap (λ k. get_elem? k (x ∷ xs)) at
get-pick n (suc k) i (x ∷ xs) h =
    let at : suc (k + i * n) ≡ suc k + i * n = omega arith in
    get-pick n k i xs h ∙ ap (λ m. get_elem? m (x ∷ xs)) at

abbrev rows_from : ℕ → ℕ → List (MfivRow ℕ)
rows_from start zero = []
rows_from start (suc n) = record { timestamp = start; rest = 0 } ∷ rows_from (start + 300000) n

rows_from-IsEveryFive : (start n : ℕ) → IsEveryFive start (rows_from start n)
rows_from-IsEveryFive start zero = tt
rows_from-IsEveryFive start (suc n) = (refl, rows_from-IsEveryFive (start + 300000) n)

abbrev source : Source ℕ
source = record {
  query_mfiv = λ params. some (rows_from 0 40);
  take_nth = λ n rows. pick n 0 rows;
  takes = λ n i rows h. get-pick n 0 i rows h ∙ ap (λ m. get_elem? m rows) (omega arith);
}

abbrev checks : String → ℕ → Bool × ℕ
checks key s = (true, s)

abbrev refuses : String → ℕ → Bool × ℕ
refuses key s = (false, s)

abbrev no_query : String → Option String
no_query q = none

abbrev hourly : ApiMfivParams
hourly = record {
  api_key = "k";
  interval = "1H";
  date_from = 0;
  date_to = 20000000;
  time_period = "14D";
  asset = eth;
}

abbrev hourly_page : Page ℕ
hourly_page = page_of (pick 11 0 (rows_from 0 40))

hourly_runs : (mfiv checks no_query source hourly 0).0 ≡ ok hourly_page
unfolding mfiv handle_authorize2 check_key rows_of
hourly_runs = refl

-- The second row of the hour's interval comes after 55 minutes.
mfiv-Spacing_example : Spacing hourly.interval 0 1 (rows_from 0 40) hourly_page.rows
mfiv-Spacing_example =
    mfiv-Spacing checks no_query source hourly 0 0 1 (rows_from 0 40) hourly_page refl
      (rows_from-IsEveryFive 0 40) hourly_runs

refused_runs : (mfiv refuses no_query source hourly 0).0 ≡ err forbidden
unfolding mfiv handle_authorize2 check_key rows_of
refused_runs = refl
