-- ===== src/FirstCalculator/Replay/Stops.antt =====
-- The end of a replay of src/lib/vix_calculator.ts.
use volatility_services.Prelude.{
  ℕ, zero, suc, ◌+◌, ◌-◌, ◌<◌, ◌≡◌, refl, sym, ap, ◌∙◌, ◌⊎◌, inl, inr, Bool, true, false, ◌&&◌,
  Option, some, List, [], ◌∷◌, subst, keep, leb, if◌then◌else◌, Option-cases, arith,
}
use volatility_services.Prelude.Int.{ℤ, sub_ℕ, leb_ℤ}
use volatility_services.Prelude.Text.{Text}
use volatility_services.WeeklyRollover.{Rollover, rollover_weekly, rollover_weekly-later}
use volatility_services.FirstCalculator.MidBook.{OptionSummary}
use volatility_services.FirstCalculator.Replay.{
  VixConfig, Platform, VixCalculator, Pass, ended, rolls, new, expires_at, build_option_lists,
  create_stream, set_index, calculate_index, report_time, report, is_due, take_in, has_index, pass,
  roll_over, summary_stream, fetch_index,
}

-- What a pass leaves as it is.
abbrev Frame : Type 0
Frame = ℕ × ℕ × Rollover × ℤ × List Text × List Text × ℕ

abbrev frame : {N : Type 0} → VixCalculator N → Frame
frame c = (
  c.ref_date, c.start_date, c.rollover, c.max_duration, c.near_option_list, c.next_option_list,
  c.completed,
)

abbrev state_of : {N : Type 0} → Pass N → VixCalculator N
state_of (ended c) = c
state_of (rolls c) = c

module _ {N : Type 0} where
  Pass-cases :
      (q : Pass N)
      → ((c : VixCalculator N) × (q ≡ ended c)) ⊎ ((c : VixCalculator N) × (q ≡ rolls c))
  Pass-cases (ended c) = inl (c, refl)
  Pass-cases (rolls c) = inr (c, refl)

  frame-if :
      (b : Bool) (x y : VixCalculator N) (f : Frame)
      → frame x ≡ f
      → frame y ≡ f
      → frame (if b then x else y) ≡ f
  frame-if true x y f h k = h
  frame-if false x y f h k = k

  -- How a round of the loop goes on.
  abbrev round : Bool → Bool → Bool → VixCalculator N → Pass N → Pass N
  round a b r c rest = if a then ended c else if b then ended c else if r then rolls c else rest

  frame-round :
      (a b r : Bool) (c : VixCalculator N) (rest : Pass N) (f : Frame)
      → frame c ≡ f
      → frame (state_of rest) ≡ f
      → frame (state_of (round a b r c rest)) ≡ f
  frame-round true b r c rest f h k = h
  frame-round false true r c rest f h k = h
  frame-round false false true c rest f h k = h
  frame-round false false false c rest f h k = k

  round-rolls :
      (a b r : Bool) (c d : VixCalculator N) (rest : Pass N)
      → round a b r c rest ≡ rolls d
      → (rest ≡ rolls d) ⊎ ((c ≡ d) × (b ≡ false) × (r ≡ true))
  round-rolls a b r c d rest h = ground arith

module _ {N : Type 0} (p : Platform N) where
  -- A message is outside of the period, or at the rollover or later.
  abbrev is_over : OptionSummary N → VixCalculator N → Bool
  is_over m c = leb_ℤ c.max_duration (p.diff (report_time p m) c.start_date)

  abbrev rolls_over : OptionSummary N → VixCalculator N → Bool
  rolls_over m c = p.is_same_or_after (report_time p m) c.rollover.rollover_at

  frame-set_index : (c : VixCalculator N) → frame (set_index p c) ≡ frame c
  unfolding set_index
  frame-set_index c = elim (Option-cases (calculate_index p c)) [
    | inl e ↦ rw (set_index, e) refl
    | inr (x, e) ↦ rw (set_index, e) refl
  ]

  frame-take_in :
      (last : ℕ) (m : OptionSummary N) (c : VixCalculator N) → frame (take_in p last m c) ≡ frame c
  unfolding take_in report
  frame-take_in last m c =
      frame-if (is_due p last m c) _ _ (frame c) (frame-set_index _) (frame-set_index _)

  frame-pass :
      (b : Bool) (last : ℕ) (ms : List (OptionSummary N)) (c : VixCalculator N)
      → frame (state_of (pass p b last ms c)) ≡ frame c
  unfolding pass
  frame-pass b last [] c = refl
  frame-pass b last (m ∷ ms) c =
      let c' = take_in p last m c in
      let next = if is_due p last m c then report_time p m else last in
      frame-round (b && has_index p c') (is_over m c') (rolls_over m c') c' (pass p b next ms c')
        (frame c) (frame-take_in last m c) (frame-pass b next ms c' ∙ frame-take_in last m c)

  -- A pass that ends at a rollover ends with a message at it or later, within the replay.
  pass-rolls :
      (b : Bool) (last : ℕ) (ms : List (OptionSummary N)) (c d : VixCalculator N)
      → pass p b last ms c ≡ rolls d
      → (ts : ℕ) × (leb_ℤ d.max_duration (p.diff ts d.start_date) ≡ false)
        × (p.is_same_or_after ts d.rollover.rollover_at ≡ true)
  unfolding pass
  pass-rolls b last [] c d h = absurd (cc h)
  pass-rolls b last (m ∷ ms) c d h =
      let c' = take_in p last m c in
      let next = if is_due p last m c then report_time p m else last in
      elim (round-rolls (b && has_index p c') (is_over m c') (rolls_over m c') c' d
        (pass p b next ms c') h) [
          | inl rest ↦ pass-rolls b next ms c' d rest
          | inr (e, within, due) ↦
              (report_time p m, ap (is_over m) (sym e) ∙ within, ap (rolls_over m) (sym e) ∙ due)
        ]

  summary_stream-ended :
      (fuel : ℕ) (b : Bool) (c d : VixCalculator N)
      → pass p b (p.minute_before c.ref_date) (p.stream (create_stream p c)) c ≡ ended d
      → summary_stream p (suc fuel) b c ≡ some (record d { completed = d.completed + 1 })
  unfolding summary_stream
  summary_stream-ended fuel b c d h = rw (summary_stream, h) refl

  summary_stream-rolls :
      (fuel : ℕ) (b : Bool) (c d : VixCalculator N)
      → pass p b (p.minute_before c.ref_date) (p.stream (create_stream p c)) c ≡ rolls d
      → summary_stream p (suc fuel) b c ≡ summary_stream p fuel false (roll_over p d)
  unfolding summary_stream
  summary_stream-rolls fuel b c d h = rw (summary_stream, h) refl

  -- The expiries and the lists of options are those of the reference date.
  abbrev pub IsCurrent : VixCalculator N → Type 0
  IsCurrent c =
      (c.rollover ≡ rollover_weekly p.utc c.ref_date)
      × (c.near_option_list ≡ keep (expires_at p c.rollover.near_expiry) (p.instruments c.ref_date))
      × (c.next_option_list ≡ keep (expires_at p c.rollover.next_expiry) (p.instruments c.ref_date))

  -- A calculator in a replay up to `end`.
  abbrev InReplay : ℕ → Frame → Type 0
  InReplay end (ref, start, rollover, length, near, next, completed) =
      (rollover ≡ rollover_weekly p.utc ref)
      × (near ≡ keep (expires_at p rollover.near_expiry) (p.instruments ref))
      × (next ≡ keep (expires_at p rollover.next_expiry) (p.instruments ref))
      × (length ≡ sub_ℕ end start)
      × (completed ≡ 0)

  roll_over-InReplay :
      (end : ℕ) (b : Bool) (c d : VixCalculator N)
      → InReplay end (frame c)
      → pass p b (p.minute_before c.ref_date) (p.stream (create_stream p c)) c ≡ rolls d
      → InReplay end (frame (roll_over p d))
        × (c.ref_date < (roll_over p d).ref_date)
        × ((roll_over p d).ref_date < end)
  unfolding roll_over build_option_lists
  roll_over-InReplay end b c d (current, near, next, len, fresh) h =
      let (ts, within, due) =
        pass-rolls b (p.minute_before c.ref_date) (p.stream (create_stream p c)) c d h in
      let same : frame d ≡ frame c =
        ap (λ q. frame (state_of q)) (sym h)
        ∙ frame-pass b (p.minute_before c.ref_date) (p.stream (create_stream p c)) c in
      let len' : d.max_duration ≡ sub_ℕ end d.start_date = cc in
      let fresh' : d.completed ≡ 0 = cc in
      let rolled : d.rollover ≡ rollover_weekly p.utc c.ref_date = cc in
      let later : c.ref_date < d.rollover.rollover_at =
        rw rolled (rollover_weekly-later p.utc c.ref_date) in
      let short : leb_ℤ (sub_ℕ end d.start_date) (sub_ℕ ts d.start_date) ≡ false =
        rw (← len', ← p.diffs ts d.start_date) within in
      let reached : leb d.rollover.rollover_at ts ≡ true =
        sym (p.same_or_after ts d.rollover.rollover_at) ∙ due in
      ((refl, refl, refl, len', fresh'), later, ground arith)

  -- What a replay returns.
  abbrev pub Completes : ℕ → ℕ → Option (VixCalculator N) → Type 0
  Completes from end r =
      (c : VixCalculator N) × (r ≡ some c)
      × (c.completed ≡ 1)
      × IsCurrent c
      × ((c.ref_date ≡ from) ⊎ ((from < c.ref_date) × (c.ref_date < end)))

  summary_stream-Completes :
      (fuel end : ℕ) (b : Bool) (c : VixCalculator N)
      → InReplay end (frame c)
      → end - c.ref_date < fuel
      → Completes c.ref_date end (summary_stream p fuel b c)
  summary_stream-Completes zero end b c ready enough = absurd (omega arith)
  summary_stream-Completes (suc fuel) end b c ready enough =
      elim (Pass-cases (pass p b (p.minute_before c.ref_date) (p.stream (create_stream p c)) c)) [
        | inl (d, h) ↦
            let same : frame d ≡ frame c =
              ap (λ q. frame (state_of q)) (sym h)
              ∙ frame-pass b (p.minute_before c.ref_date) (p.stream (create_stream p c)) c in
            let (current, near, next, _, fresh) = subst (InReplay end) (sym same) ready in
            (
              record d { completed = d.completed + 1 },
              summary_stream-ended fuel b c d h,
              omega arith,
              (current, near, next),
              inl (ap (λ (f : Frame). f.0) same),
            )
        | inr (d, h) ↦
            let (ready', later, short) = roll_over-InReplay end b c d ready h in
            let (x, e, once, current, at) =
              summary_stream-Completes fuel end false (roll_over p d) ready' (omega arith) in
            (
              x,
              summary_stream-rolls fuel b c d h ∙ e,
              once,
              current,
              elim at [
                | inl same ↦ inr (rw same later, rw same short)
                | inr (after, before) ↦ inr (omega arith, before)
              ],
            )
      ]

  -- With more fuel than the milliseconds from the start of a replay to its end, fetch_index returns and has
  -- called onComplete once. The reference date is then the start, or after it and before the end, and the
  -- expiries and the lists of options are those of the reference date.
  pub first_fetch_index-Completes :
      (fuel : ℕ) (config : VixConfig)
      → config.replay_to - p.start_of_minute config.replay_from < fuel
      → Completes
          (p.start_of_minute config.replay_from)
          config.replay_to
          (fetch_index p fuel config)
  unfolding fetch_index new build_option_lists
  first_fetch_index-Completes fuel config enough =
      summary_stream-Completes fuel config.replay_to false (build_option_lists p (new p config))
        (refl, refl, refl, p.diffs config.replay_to (p.start_of_minute config.replay_from), refl)
        enough
