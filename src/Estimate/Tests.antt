-- ===== src/Estimate/Tests.antt =====
-- An estimate of three options, by concrete services.
use volatility_services.Prelude.{
  ℕ, ◌*◌, ◌≡◌, refl, sym, ap, subst, inl, inr, String, true, false, Option, none, some, List, [],
  ◌∷◌, All, if◌then◌else◌, Bool-cases, arith,
}
use volatility_services.Prelude.Int.{pos, ltb_ℤ, ◌≤ℤ◌}
use volatility_services.Prelude.Text.{codes}
use volatility_services.TimePeriod.{milliseconds_per_day}
use volatility_services.Expiries.{eth, friday_t08}
use volatility_services.Ingest.{Summary}
use volatility_services.Estimate.{EstimateParams, Estimator, cmp_most_recent, IsIn}

abbrev Option3 : Type 0
Option3 = Summary ℕ ℕ

newest_from : Option3 → List Option3 → Option3
newest_from o [] = o
newest_from o (x ∷ xs) =
    if ltb_ℤ (pos 0) (cmp_most_recent x o) then newest_from x xs else newest_from o xs

abbrev newest : List Option3 → Option Option3
newest [] = none
newest (o ∷ os) = some (newest_from o os)

cmp_same : (x : Option3) → cmp_most_recent x x ≤ℤ pos 0
unfolding cmp_most_recent
cmp_same x = ground arith

cmp_chain :
    (x y z : Option3)
    → cmp_most_recent x y ≤ℤ pos 0
    → cmp_most_recent y z ≤ℤ pos 0
    → cmp_most_recent x z ≤ℤ pos 0
unfolding cmp_most_recent
cmp_chain x y z h k = ground arith

cmp_turn :
    (x y : Option3) → ltb_ℤ (pos 0) (cmp_most_recent x y) ≡ true → cmp_most_recent y x ≤ℤ pos 0
unfolding cmp_most_recent
cmp_turn x y h = ground arith

cmp_keep :
    (x y : Option3) → ltb_ℤ (pos 0) (cmp_most_recent x y) ≡ false → cmp_most_recent x y ≤ℤ pos 0
cmp_keep x y h = ground arith

abbrev IsGreatest : Option3 → List Option3 → Type 0
IsGreatest o xs = IsIn o xs × All (λ (x : Option3). cmp_most_recent x o ≤ℤ pos 0) xs

skip_one : (y o x : Option3) (xs : List Option3) → IsIn y (o ∷ xs) → IsIn y (o ∷ x ∷ xs)
skip_one y o x xs (inl h) = inl h
skip_one y o x xs (inr h) = inr (inr h)

newest_from-IsGreatest : (o : Option3) (xs : List Option3) → IsGreatest (newest_from o xs) (o ∷ xs)
unfolding newest_from
newest_from-IsGreatest o [] = (inl refl, (cmp_same o, tt))
newest_from-IsGreatest o (x ∷ xs) = elim (Bool-cases (ltb_ℤ (pos 0) (cmp_most_recent x o))) [
  | inl h ↦
      let (here, (first, rest)) = newest_from-IsGreatest x xs in
      subst (λ y. IsGreatest y (o ∷ x ∷ xs))
        (sym (ap (λ b. if b then newest_from x xs else newest_from o xs) h))
        (inr here, (cmp_chain o x (newest_from x xs) (cmp_turn x o h) first, (first, rest)))
  | inr h ↦
      let (here, (first, rest)) = newest_from-IsGreatest o xs in
      subst (λ y. IsGreatest y (o ∷ x ∷ xs))
        (sym (ap (λ b. if b then newest_from x xs else newest_from o xs) h))
        (
          skip_one (newest_from o xs) o x xs here,
          (first, (cmp_chain x o (newest_from o xs) (cmp_keep x o h) first, rest)),
        )
]

newest-IsGreatest : (o : Option3) (xs : List Option3) → newest xs ≡ some o → IsGreatest o xs
newest-IsGreatest o [] h = absurd (ground arith)
newest-IsGreatest o (x ∷ xs) h =
    let same : newest_from x xs ≡ o = ground arith in
    subst (λ y. IsGreatest y (x ∷ xs)) same (newest_from-IsGreatest x xs)

newest-exists : (xs : List Option3) → newest xs ≡ none → xs ≡ []
newest-exists [] h = refl
newest-exists (x ∷ xs) h = absurd (ground arith)

abbrev option_at : String → ℕ → ℕ → Option3
option_at symbol at price = record {
  symbol = symbol;
  timestamp = at;
  local_timestamp = at;
  expiration_date = 0;
  best_ask_price = some 1;
  best_bid_price = some 1;
  underlying_price = some price;
  rest = 0;
}

abbrev estimator : Estimator ℕ ℕ
estimator = record {
  zero_price = 0;
  default_rate = record {
    riskless_rate = 366;
    riskless_rate_at = "2022-03-17T17:17:00.702Z";
    riskless_rate_source = "AAVE";
  };
  print = λ n. "1";
  summaries = λ asset expiry. some (option_at "A" 5 3000 ∷ option_at "B" 9 3100 ∷ []);
  compute =
      λ context params. some (record { d_vol = some params.underlying_price; invd_vol = none });
  find_most_recent = newest;
  greatest = newest-IsGreatest;
  exists_greatest = newest-exists;
}

abbrev request : EstimateParams
request = record {
  at = 100 * milliseconds_per_day;
  exchange = "deribit";
  methodology = codes "MFIV";
  asset = eth;
  time_period = codes "14D";
  symbol_type = "option";
  expiry_type = friday_t08;
  contract_type = "call_option" ∷ "put_option" ∷ [];
}
