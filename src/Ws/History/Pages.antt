-- ===== src/Ws/History/Pages.antt =====
-- The rows of the action mfiv of services/ws.service.ts by its interval.
use volatility_services.Prelude.{
  ℕ, zero, suc, ◌+◌, ◌*◌, ◌≡◌, refl, sym, ap, ◌∙◌, String, Bool, Option, none, some, List, [], ◌∷◌,
  Result, ok, err, arith, Option-cases, Bool-cases, ◌⊎◌, inl, inr, subst,
}
use volatility_services.Prelude.Keys.{symbol_key}
use volatility_services.Ws.Authorize.{AuthError, handle_authorize2}
use volatility_services.Ws.History.{
  MfivRow, ApiMfivParams, Page, get_elem?, Source, filter_map, page_of, rows_of, mfiv,
}

-- The rows are five minutes apart, from `start` on.
abbrev pub IsEveryFive : {I : Type 0} → ℕ → List (MfivRow I) → Type 0
IsEveryFive start [] = Unit
IsEveryFive start (row ∷ rows) = (row.timestamp ≡ start) × IsEveryFive (start + 300000) rows

-- The row, where there is one, is of the time `t`.
abbrev pub IsAt : {I : Type 0} → ℕ → Option (MfivRow I) → Type 0
IsAt t none = Unit
IsAt t (some row) = row.timestamp ≡ t

every_five :
    {I : Type 0} (start i : ℕ) (rows : List (MfivRow I))
    → IsEveryFive start rows
    → IsAt (start + i * 300000) (get_elem? i rows)
every_five start i [] h = tt
every_five start zero (x ∷ xs) h = h.0 ∙ omega arith
every_five start (suc i) (x ∷ xs) h =
    let at : start + 300000 + i * 300000 ≡ start + suc i * 300000 = omega arith in
    subst (λ t. IsAt t (get_elem? i xs)) at (every_five (start + 300000) i xs h.1)

filter_map-cases :
    (interval : String) (n : ℕ)
    → filter_map interval ≡ some n
    → ((interval ≡ "5M") × (n ≡ 1))
      ⊎ ((interval ≡ "15M") × (n ≡ 3))
      ⊎ ((interval ≡ "1H") × (n ≡ 11))
      ⊎ ((interval ≡ "1D") × (n ≡ 287))
filter_map-cases interval n h = elim (Bool-cases (symbol_key.same interval "5M")) [
  | inl a ↦ inl ((symbol_key.same_iff interval "5M").0 a, ground (arith, a))
  | inr a ↦ elim (Bool-cases (symbol_key.same interval "15M")) [
    | inl b ↦ inr (inl ((symbol_key.same_iff interval "15M").0 b, ground (arith, a, b)))
    | inr b ↦ elim (Bool-cases (symbol_key.same interval "1H")) [
      | inl c ↦ inr (inr (inl ((symbol_key.same_iff interval "1H").0 c, ground (arith, a, b, c))))
      | inr c ↦ elim (Bool-cases (symbol_key.same interval "1D")) [
        | inl d ↦
            inr (inr (inr ((symbol_key.same_iff interval "1D").0 d, ground (arith, a, b, c, d))))
        | inr d ↦ absurd (ground (arith, a, b, c, d))
      ]
    ]
  ]
]

other-name :
    (interval name : String) (n : ℕ)
    → filter_map interval ≡ none
    → filter_map name ≡ some n
    → ¬ (interval ≡ name)
other-name interval name n unknown known same =
    let both = sym unknown ∙ ap filter_map same ∙ known in cc both

-- Place `i` of a page has the row at place `i * steps` of those stored, and `i * gap` milliseconds later than
-- the first of them.
abbrev pub IsNth : {I : Type 0} → ℕ → ℕ → ℕ → ℕ → List (MfivRow I) → Option (MfivRow I) → Type 0
IsNth steps gap start i rows found =
    (found ≡ get_elem? (i * steps) rows) × IsAt (start + i * gap) found

-- What the page of an interval is at the place `i`.
abbrev pub Spacing : {I : Type 0} → String → ℕ → ℕ → List (MfivRow I) → List (MfivRow I) → Type 0
Spacing interval start i rows page =
    ((interval ≡ "5M") × IsNth 1 300000 start i rows (get_elem? i page))
    ⊎ ((interval ≡ "15M") × IsNth 3 900000 start i rows (get_elem? i page))
    ⊎ ((interval ≡ "1H") × IsNth 11 3300000 start i rows (get_elem? i page))
    ⊎ ((interval ≡ "1D") × IsNth 287 86100000 start i rows (get_elem? i page))
    ⊎ (¬ (interval ≡ "5M")
        × ¬ (interval ≡ "15M")
        × ¬ (interval ≡ "1H")
        × ¬ (interval ≡ "1D")
        × (page ≡ []))

module _ {I S : Type 0} (tokens_check : String → S → Bool × S) (query_key : String → Option String)
    (src : Source I) where
  rows_of-IsNth :
      (params : ApiMfivParams) (n gap start i : ℕ) (rows : List (MfivRow I))
      → filter_map params.interval ≡ some (suc n)
      → gap ≡ suc n * 300000
      → src.query_mfiv params ≡ some rows
      → IsEveryFive start rows
      → IsNth (suc n) gap start i rows (get_elem? i (rows_of tokens_check query_key src params))
  unfolding rows_of
  rows_of-IsNth params n gap start i rows known wide answered stored =
      let taken : rows_of tokens_check query_key src params ≡ src.take_nth (suc n) rows =
        rw (rows_of, known, answered) refl in
      let here : get_elem? i (rows_of tokens_check query_key src params)
          ≡ get_elem? (i * suc n) rows =
        ap (get_elem? i) taken ∙ src.takes (suc n) i rows (omega arith) in
      let time : start + i * suc n * 300000 ≡ start + i * gap = grind arith in
      (
        here,
        subst (λ t. IsAt t (get_elem? i (rows_of tokens_check query_key src params))) time
            (subst (IsAt (start + i * suc n * 300000)) (sym here)
              (every_five start (i * suc n) rows stored)),
      )

  rows_of-unknown :
      (params : ApiMfivParams)
      → filter_map params.interval ≡ none
      → rows_of tokens_check query_key src params ≡ []
  unfolding rows_of
  rows_of-unknown params h = rw (rows_of, h) refl

  rows_of-Spacing :
      (params : ApiMfivParams) (start i : ℕ) (rows : List (MfivRow I))
      → src.query_mfiv params ≡ some rows
      → IsEveryFive start rows
      → Spacing params.interval start i rows (rows_of tokens_check query_key src params)
  rows_of-Spacing params start i rows answered stored =
      elim (Option-cases (filter_map params.interval)) [
        | inl h ↦ inr (
            inr (
              inr (
                inr (
                  other-name params.interval "5M" 1 h refl,
                  other-name params.interval "15M" 3 h refl,
                  other-name params.interval "1H" 11 h refl,
                  other-name params.interval "1D" 287 h refl,
                  rows_of-unknown params h,
                ))))
        | inr (n, h) ↦ elim (filter_map-cases params.interval n h) [
          | inl (name, steps) ↦ inl (
            name,
            rows_of-IsNth params 0 300000 start i rows (h ∙ ap some steps) refl answered stored,
          )
          | inr (inl (name, steps)) ↦ inr (
              inl (
                name,
                rows_of-IsNth params 2 900000 start i rows (h ∙ ap some steps) refl answered stored,
              ))
          | inr (inr (inl (name, steps))) ↦ inr (
              inr (
                inl (
                  name,
                  rows_of-IsNth params 10 3300000 start i rows (h ∙ ap some steps) refl answered
                      stored,
                )))
          | inr (inr (inr (name, steps))) ↦ inr (
              inr (
                inr (
                  inl (
                    name,
                    rows_of-IsNth params 286 86100000 start i rows (h ∙ ap some steps) refl answered
                        stored,
                  ))))
        ]
      ]

  mfiv-page :
      (params : ApiMfivParams) (s : S) (page : Page I)
      → (mfiv tokens_check query_key src params s).0 ≡ ok page
      → page.rows ≡ rows_of tokens_check query_key src params
  unfolding mfiv
  mfiv-page params s page h =
      page_rows (handle_authorize2 query_key tokens_check params.api_key s).0
        (handle_authorize2 query_key tokens_check params.api_key s).1 h
    where
      page_rows :
          (r : Result AuthError Unit) (s' : S)
          → (elim r as (λ _. Result AuthError (Page I) × S) [
            | err e ↦ (err e, s')
            | ok u ↦ (ok (page_of (rows_of tokens_check query_key src params)), s')
          ]).0
            ≡ ok page
          → page.rows ≡ rows_of tokens_check query_key src params
      page_rows (err e) s' k = absurd (cc k)
      page_rows (ok u) s' k = ground arith

  -- Of rows that are stored every five minutes from `start` on, the action's page has for 5M every row, for
  -- 15M every third, for 1H every eleventh and for 1D every 287th, from the first on, and no other: the rows
  -- of the page are 5 minutes, 15 minutes, 55 minutes or 23 hours and 55 minutes apart. For any other
  -- interval the page is empty.
  pub mfiv-Spacing :
      (params : ApiMfivParams) (s : S) (start i : ℕ) (rows : List (MfivRow I)) (page : Page I)
      → src.query_mfiv params ≡ some rows
      → IsEveryFive start rows
      → (mfiv tokens_check query_key src params s).0 ≡ ok page
      → Spacing params.interval start i rows page.rows
  mfiv-Spacing params s start i rows page answered stored returned =
      subst (Spacing params.interval start i rows) (sym (mfiv-page params s page returned))
        (rows_of-Spacing params start i rows answered stored)
