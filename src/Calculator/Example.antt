-- ===== src/Calculator/Example.antt =====
-- A platform by concrete functions, with a replay of two days in which one rollover happens.
use volatility_services.Prelude.{
  ℕ, ◌+◌, ◌-◌, ◌*◌, ◌/◌, ◌%◌, ◌≡◌, refl, sym, ap, ◌∙◌, ◌⊎◌, inl, inr, String, Bool, false, ◌||◌,
  Option, none, some, List, [], ◌∷◌, Result, ok, err, leb, ltb, nat_beq, if◌then◌else◌, Bool-cases,
  arith,
}
use volatility_services.Prelude.Int.{pos_part, neg_part}
use volatility_services.Prelude.Text.{codes}
use volatility_services.Expiries.{eth}
use volatility_services.BuildExpiries.{
  Expiries, Instrument, build_expiries, with_near, select, select_step, sort, delete_all,
  future_options,
}
use volatility_services.BuildExpiries.Grouping.{vendor, day}
use volatility_services.Calculator.{VixConfig, expiries_at}
use volatility_services.Calculator.Platform.{
  OptionSummary, Platform, Request, replay_normalized, stream_normalized,
}
use volatility_services.Prelude.Keys.{nat_beq_iff}
use volatility_services.BuildExpiries.{no_near_symbols}
use volatility_services.Calculator.Replays.{IsSteady}

abbrev pub weekly : List Instrument
weekly =
    record { id = "A"; listing = 0; expiry = day 107 }
    ∷ record { id = "B"; listing = 0; expiry = day 114 }
    ∷ record { id = "C"; listing = 0; expiry = day 121 }
    ∷ record { id = "D"; listing = 0; expiry = day 128 }
    ∷ []

abbrev pub summary : String → ℕ → ℕ → OptionSummary ℕ ℕ
summary symbol at expires = record {
  symbol = symbol;
  timestamp = at;
  expiration_date = expires;
  underlying_price = some 3000;
  quote = 7;
}

-- Two messages before the rollover at day 107 and one at it; then one of the new near expiry.
abbrev pub messages : Request → List (OptionSummary ℕ ℕ)
messages (replay_normalized symbols from to) =
    if nat_beq from (day 106)
    then summary "B" (day 106 + 1000) (day 114)
      ∷ summary "D" (day 106 + 2000) (day 128)
      ∷ summary "C" (day 107) (day 121)
      ∷ []
    else summary "C" (day 107 + 9000) (day 121) ∷ []
messages (stream_normalized symbols) = []

abbrev pub platform : Platform ℕ ℕ
platform = record {
  nought = 0;
  vendor = vendor;
  clock = day 200;
  start_of_minute = λ t. t / 60000 * 60000;
  start_of_second = λ t. t / 1000 * 1000;
  second = λ t. t / 1000 % 60;
  add_seconds = λ t n. t + n * 1000;
  add_ms = λ t z. t + pos_part z - neg_part z;
  minute_before = λ t. t - 60000;
  minutes_ms = λ n. n * 60000;
  is_same = nat_beq;
  is_before = ltb;
  is_after = λ a b. ltb b a;
  is_same_or_after = λ a b. leb b a;
  same = λ a b. refl;
  same_or_after = λ a b. refl;
  instruments = λ t. weekly;
  stream = messages;
  compute = λ context params. some (record {
    asset = context.asset;
    d_vol = some 80;
    invd_vol = none;
    value = some 81;
    methodology = "MFIV";
    estimated_for = params.at;
  });
}

abbrev pub config : VixConfig
config = record {
  replay_from = day 106;
  replay_to = day 108;
  time_period = codes "14D";
  report_frequency = some 1;
  asset = eth;
}

-- The platform with instruments at two instants only: those of the replay's start and of its rollover.
abbrev pub windowed : Platform ℕ ℕ
windowed = record platform {
  instruments = λ t. if nat_beq t (day 106) || nat_beq t (day 107) then weekly else [];
}

abbrev first_expiries : Expiries
first_expiries = record {
  expiry_list = day 128 ∷ [];
  expiry_map = (day 128, "D" ∷ []) ∷ (day 121, "C" ∷ []) ∷ [];
  near_expiry = day 114;
  next_expiry = day 121;
  near_symbols = "B" ∷ [];
  next_symbols = "C" ∷ [];
  rollover_at = some (day 107);
}

abbrev second_expiries : Expiries
second_expiries = record {
  expiry_list = [];
  expiry_map = (day 128, "D" ∷ []) ∷ [];
  near_expiry = day 121;
  next_expiry = day 128;
  near_symbols = "C" ∷ [];
  next_symbols = "D" ∷ [];
  rollover_at = some (day 114);
}

expiries_at-first : expiries_at windowed (day 106) 14 ≡ ok first_expiries
unfolding expiries_at build_expiries with_near select select_step sort delete_all future_options
expiries_at-first = refl

expiries_at-second : expiries_at windowed (day 107) 14 ≡ ok second_expiries
unfolding expiries_at build_expiries with_near select select_step sort delete_all future_options
expiries_at-second = refl

expiries_at-other :
    (t : ℕ)
    → nat_beq t (day 106) || nat_beq t (day 107) ≡ false
    → expiries_at windowed t 14 ≡ err no_near_symbols
unfolding expiries_at build_expiries with_near select sort
expiries_at-other t h = ap (λ (b : Bool). build_expiries vendor t 14 (if b then weekly else [])) h

ok_same : {E A : Type 0} (x : Result E A) (a b : A) → x ≡ ok a → x ≡ ok b → a ≡ b
ok_same x a b h k = ground arith

err_ok : {E A : Type 0} (x : Result E A) (e : E) (a : A) → x ≡ err e → x ≡ ok a → ⊥
err_ok x e a h k = absurd (ground arith)

-- What the windows leave of an expiry selection.
windowed-cases :
    (now : ℕ) (e : Expiries)
    → expiries_at windowed now 14 ≡ ok e
    → (e ≡ first_expiries) ⊎ (e ≡ second_expiries)
windowed-cases now e h = elim (Bool-cases (nat_beq now (day 106))) [
  | inl a ↦
      let at = (nat_beq_iff now (day 106)).0 a in
      inl (
        ok_same (expiries_at windowed now 14) e first_expiries h
          (ap (λ t. expiries_at windowed t 14) at ∙ expiries_at-first))
  | inr a ↦ elim (Bool-cases (nat_beq now (day 107))) [
    | inl b ↦
        let at = (nat_beq_iff now (day 107)).0 b in
        inr (
          ok_same (expiries_at windowed now 14) e second_expiries h
            (ap (λ t. expiries_at windowed t 14) at ∙ expiries_at-second))
    | inr b ↦ absurd (
        err_ok (expiries_at windowed now 14) no_near_symbols e
          (expiries_at-other now (ground (arith, a, b))) h)
  ]
]

some_same : {A : Type 0} (x : Option A) (a b : A) → x ≡ some a → x ≡ some b → a ≡ b
some_same x a b h k = ground arith

pub windowed-IsSteady : IsSteady windowed 14
windowed-IsSteady now r e e' h at k = elim (windowed-cases now e h) [
  | inl first ↦
      let rolls_at : r ≡ day 107 =
        some_same e.rollover_at r (day 107) at (ap (λ (x : Expiries). x.rollover_at) first) in
      let second =
        ok_same (expiries_at windowed r 14) e' second_expiries k
          (ap (λ t. expiries_at windowed t 14) rolls_at ∙ expiries_at-second) in
      inr (
        ap (λ (x : Expiries). x.near_expiry) second
        ∙ sym (ap (λ (x : Expiries). x.next_expiry) first))
  | inr second ↦
      let rolls_at : r ≡ day 114 =
        some_same e.rollover_at r (day 114) at (ap (λ (x : Expiries). x.rollover_at) second) in
      absurd (
        err_ok (expiries_at windowed r 14) no_near_symbols e'
          (ap (λ t. expiries_at windowed t 14) rolls_at ∙ expiries_at-other (day 114) refl) k)
]
