-- ===== src/Calculator/Passes.antt =====
-- Induction on a pass (the `for await` loop of `summaryStream` in src/lib/vix_calculator_v2.ts).
use volatility_services.Prelude.{
  ℕ, ◌≡◌, refl, sym, ◌∙◌, ◌⊎◌, inl, inr, Bool, true, false, ◌&&◌, none, some, List, [], ◌∷◌,
  if◌then◌else◌, Bool-cases, arith,
}
use volatility_services.Prelude.Int.{ℤ, pos, leb_ℤ}
use volatility_services.Prelude.Dict.{set}
use volatility_services.Prelude.Keys.{symbol_key}
use volatility_services.BuildExpiries.{Expiries}
use volatility_services.Calculator.{
  Calculator, on_compute, completed, Pass, ended, rolls, is_current, rollover_of, is_defined,
  report, report_time, set_option, take_in, next_report, pass, calculate_index,
}
use volatility_services.Calculator.Platform.{Platform, OptionSummary}

abbrev pub state_of : {N Q : Type 0} → Pass N Q → Calculator N Q
state_of (ended c) = c
state_of (rolls c) = c

-- The part of the state that a pass leaves as it is.
abbrev pub Setting : Type 0
Setting = ℕ × ℕ × ℕ × ℤ × Expiries

abbrev pub setting : {N Q : Type 0} → Calculator N Q → Setting
setting c = (c.ref_date, c.start_date, c.time_period, c.max_duration, c.expiries)

module _ {N Q : Type 0} where
  pub all_of_if :
      (I : Calculator N Q → Type 0) (b : Bool) (x y : Calculator N Q)
      → I x
      → I y
      → I (if b then x else y)
  all_of_if I true x y i j = i
  all_of_if I false x y i j = j

  -- Where a round of the loop goes on.
  all_of_round :
      (I : Calculator N Q → Type 0) (a b r : Bool) (c : Calculator N Q) (rest : Pass N Q)
      → I c
      → I (state_of rest)
      → I (state_of (if a then ended c else if b then ended c else if r then rolls c else rest))
  all_of_round I true b r c rest i j = i
  all_of_round I false true r c rest i j = i
  all_of_round I false false true c rest i j = i
  all_of_round I false false false c rest i j = j

  round_rolls :
      (a b r : Bool) (c d : Calculator N Q) (rest : Pass N Q)
      → (if a then ended c else if b then ended c else if r then rolls c else rest) ≡ rolls d
      → (rest ≡ rolls d) ⊎ ((c ≡ d) × (b ≡ false) × (r ≡ true))
  round_rolls a b r c d rest h = ground arith

module _ {N Q : Type 0} (p : Platform N Q) where
  -- What a round does with the state that it has made.
  abbrev round : Bool → OptionSummary N Q → Calculator N Q → Pass N Q → Pass N Q
  round b m c rest =
      if b && is_defined p c.index
      then ended c
      else if leb_ℤ c.max_duration (p.vendor.diff (report_time p m) c.start_date)
      then ended c
      else if p.is_same_or_after (report_time p m) (rollover_of p c)
      then rolls c
      else rest

  pass-current :
      (b : Bool) (last : ℕ) (m : OptionSummary N Q) (ms : List (OptionSummary N Q))
      (c : Calculator N Q)
      → is_current p c.expiries m ≡ true
      → pass p b last (m ∷ ms) c
        ≡ round b m (take_in p last m c) (pass p b (next_report p last m c) ms (take_in p last m c))
  unfolding pass
  pass-current b last m ms c h = rw (pass, h) refl

  pass-later :
      (b : Bool) (last : ℕ) (m : OptionSummary N Q) (ms : List (OptionSummary N Q))
      (c : Calculator N Q)
      → is_current p c.expiries m ≡ false
      → pass p b last (m ∷ ms) c ≡ pass p b last ms (set_option p m c)
  unfolding pass
  pass-later b last m ms c h = rw (pass, h) refl

  pass_nil :
      (I : Calculator N Q → Type 0) (b : Bool) (last : ℕ) (c : Calculator N Q)
      → I c
      → I (state_of (pass p b last [] c))
  unfolding pass
  pass_nil I b last c i = i

  -- The loop keeps what both branches of its body keep.
  pub pass_induction :
      (I : Calculator N Q → Type 0)
      → ((m : OptionSummary N Q) (c : Calculator N Q)
          → is_current p c.expiries m ≡ false
          → I c
          → I (set_option p m c))
      → ((last : ℕ) (m : OptionSummary N Q) (c : Calculator N Q)
          → is_current p c.expiries m ≡ true
          → I c
          → I (take_in p last m c))
      → (b : Bool) (last : ℕ) (ms : List (OptionSummary N Q)) (c : Calculator N Q) → I c
      → I (state_of (pass p b last ms c))
  pass_induction I later now b last [] c i = pass_nil I b last c i
  pass_induction I later now b last (m ∷ ms) c i = elim (Bool-cases (is_current p c.expiries m)) [
    | inl h ↦
        let j = now last m c h i in
        rw (pass-current b last m ms c h) (
          all_of_round I (b && is_defined p (take_in p last m c).index)
            (leb_ℤ (take_in p last m c).max_duration
              (p.vendor.diff (report_time p m) (take_in p last m c).start_date))
            (p.is_same_or_after (report_time p m) (rollover_of p (take_in p last m c)))
            (take_in p last m c) (pass p b (next_report p last m c) ms (take_in p last m c)) j
            (pass_induction I later now b (next_report p last m c) ms (take_in p last m c) j))
    | inr h ↦
        rw (pass-later b last m ms c h)
          (pass_induction I later now b last ms (set_option p m c) (later m c h i))
  ]

  setting-report : (m : OptionSummary N Q) (c : Calculator N Q) → setting (report p m c) ≡ setting c
  unfolding report
  setting-report m c =
      elim (calculate_index p m c)
        as (λ o.
          setting (elim o [
            | none ↦ record c { index = none }
            | some i ↦ record c { index = some i; calls = on_compute i ∷ c.calls }
          ])
          ≡ setting c) [ none ↦ refl | some i ↦ refl ]

  pub setting-take_in :
      (last : ℕ) (m : OptionSummary N Q) (c : Calculator N Q)
      → setting (take_in p last m c) ≡ setting c
  unfolding take_in
  setting-take_in last m c =
      let c' = record c { mid_book = set m.symbol m c.mid_book } in
      all_of_if (λ x. setting x ≡ setting c)
        (leb_ℤ (pos c.report_frequency) (p.vendor.diff (report_time p m) last)) (report p m c') c'
        (setting-report m c') refl

  pub setting-pass :
      (b : Bool) (last : ℕ) (ms : List (OptionSummary N Q)) (c : Calculator N Q)
      → setting (state_of (pass p b last ms c)) ≡ setting c
  unfolding set_option
  setting-pass b last ms c =
      pass_induction (λ x. setting x ≡ setting c) (λ m x h e. e)
        (λ l m x h e. setting-take_in l m x ∙ e) b last ms c refl

  -- A pass that rolls over met a message at the rollover or later, within the period.
  pub pass-rolls :
      (b : Bool) (last : ℕ) (ms : List (OptionSummary N Q)) (c d : Calculator N Q)
      → pass p b last ms c ≡ rolls d
      → (ts : ℕ) × (leb_ℤ d.max_duration (p.vendor.diff ts d.start_date) ≡ false)
        × (p.is_same_or_after ts (rollover_of p d) ≡ true)
  unfolding pass
  pass-rolls b last [] c d h = absurd (ground arith)
  pass-rolls b last (m ∷ ms) c d h = elim (Bool-cases (is_current p c.expiries m)) [
    | inl e ↦
        elim (round_rolls (b && is_defined p (take_in p last m c).index)
          (leb_ℤ (take_in p last m c).max_duration
            (p.vendor.diff (report_time p m) (take_in p last m c).start_date))
          (p.is_same_or_after (report_time p m) (rollover_of p (take_in p last m c)))
          (take_in p last m c) d (pass p b (next_report p last m c) ms (take_in p last m c))
          (sym (pass-current b last m ms c e) ∙ h)) [
            | inl k ↦ pass-rolls b (next_report p last m c) ms (take_in p last m c) d k
            | inr (same, within, due) ↦ (report_time p m, rw (← same) within, rw (← same) due)
          ]
    | inr e ↦ pass-rolls b last ms (set_option p m c) d (sym (pass-later b last m ms c e) ∙ h)
  ]

  completed-report :
      (m : OptionSummary N Q) (c : Calculator N Q) → completed (report p m c) ≡ completed c
  unfolding report
  completed-report m c =
      elim (calculate_index p m c)
        as (λ o.
          completed (elim o as (λ _. Calculator N Q) [
            | none ↦ record c { index = none }
            | some i ↦ record c { index = some i; calls = on_compute i ∷ c.calls }
          ])
          ≡ completed c) [ none ↦ refl | some i ↦ refl ]

  completed-take_in :
      (last : ℕ) (m : OptionSummary N Q) (c : Calculator N Q)
      → completed (take_in p last m c) ≡ completed c
  unfolding take_in
  completed-take_in last m c =
      let c' = record c { mid_book = set m.symbol m c.mid_book } in
      all_of_if (λ x. completed x ≡ completed c)
        (leb_ℤ (pos c.report_frequency) (p.vendor.diff (report_time p m) last)) (report p m c') c'
        (completed-report m c') refl

  -- A pass calls onComplete not once.
  pub completed-pass :
      (b : Bool) (last : ℕ) (ms : List (OptionSummary N Q)) (c : Calculator N Q)
      → completed (state_of (pass p b last ms c)) ≡ completed c
  unfolding set_option
  completed-pass b last ms c =
      pass_induction (λ x. completed x ≡ completed c) (λ m x h e. e)
        (λ l m x h e. completed-take_in l m x ∙ e) b last ms c refl
